-- ===== src/CodeStoreActor/Fetching.antt =====
-- Code that the actor is given is what it answers with.
use u_actor.Prelude.{◌≡◌, Text, ℤ, none, some, codes}
use u_actor.Publication.{Map, get_str_attr, get_int_attr}
use u_actor.Arguments.{to_uint32}
use u_actor.CodeStore.{CodeIdentifier, identifier_eq, insert_or_refresh}
use u_actor.CodeStoreActor.{CodeStoreActor, Clock, Outcome, receive_code_fetch_request}

-- A code package with its identifier, lifetime and code.
pub record IsPackage (publication : Map) (identifier : CodeIdentifier) (lifetime_end : ℤ)
    (code : Text) : Type 0 where
  pub package_type : get_str_attr (codes "actor_code_type") publication ≡ some identifier.type
  pub package_version :
      get_str_attr (codes "actor_code_version") publication ≡ some identifier.version
  pub package_runtime_type :
      get_str_attr (codes "actor_code_runtime_type") publication ≡ some identifier.runtime_type
  pub package_lifetime_end :
      get_int_attr (codes "actor_code_lifetime_end") publication ≡ some lifetime_end
  pub package_code : get_str_attr (codes "actor_code") publication ≡ some code

-- A request for code, of an actor with three names.
pub record IsRequest (publication : Map) (identifier : CodeIdentifier) (node actor name : Text)
    : Type 0 where
  pub request_type : get_str_attr (codes "fetch_actor_type") publication ≡ some identifier.type
  pub request_version :
      get_str_attr (codes "fetch_actor_version") publication ≡ some identifier.version
  pub request_runtime_type :
      get_str_attr (codes "fetch_actor_runtime_type") publication ≡ some identifier.runtime_type
  pub request_node : get_str_attr (codes "publisher_node_id") publication ≡ some node
  pub request_actor : get_str_attr (codes "publisher_actor_type") publication ≡ some actor
  pub request_instance : get_str_attr (codes "publisher_instance_id") publication ≡ some name

abbrev pub with_package : CodeIdentifier → ℤ → Text → CodeStoreActor → CodeStoreActor
with_package identifier lifetime_end code a = record a {
  store = insert_or_refresh identifier (to_uint32 lifetime_end) (some code) a.store;
}

-- A package of code, and then a request.
abbrev pub then_request : Clock → Map → Outcome → Outcome
then_request clock request none = none
then_request clock request (some (ps, a)) = receive_code_fetch_request clock request a
