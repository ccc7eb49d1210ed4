-- ===== src/Runtime/Kept.antt =====
-- What the methods of an engine cannot change of an actor: its queue and its count of code fetches.
use u_actor.Prelude.{◌≡◌, refl, Text, Bool, Bool-cases, inl, inr}
use u_actor.Runtime.{
  Program, return, then_subscribe, then_unsubscribe, then_publish, then_republish,
  then_delayed_publish, then_enqueue_wakeup, then_reply, then_block_for, then_fetch_code,
  then_queue_size, Engine, ExecutorApi, Actor,
}
use u_actor.Runtime.Methods.{
  perform, run_engine, subscribe, unsubscribe, deffered_block_for, trigger_code_fetch, queue_size,
  is_ok,
}
use u_actor.Runtime.Reception.{hibernate, wakeup, late_initialize}

-- The second actor has the queue, the count and the names of the first.
abbrev pub Kept : {E : Type 0} → Actor E → Actor E → Type 0
Kept a b =
    (b.message_queue ≡ a.message_queue)
    × (b.code_fetch_retries ≡ a.code_fetch_retries)
    × (b.actor_type ≡ a.actor_type)

module _ {E W : Type 0} (api : ExecutorApi W) (methods : Engine E) where
  pub perform-Kept :
      {A : Type 0} (p : Program A) (a : Actor E) (w : W) → Kept a (perform api methods p a w).1
  unfolding perform subscribe unsubscribe deffered_block_for trigger_code_fetch queue_size
  perform-Kept (return x) a w = (refl, refl, refl)
  perform-Kept (then_subscribe f arguments k) a w =
      let (a', w', sub_id) = subscribe api f arguments a w in perform-Kept (k sub_id) a' w'
  perform-Kept (then_unsubscribe sub_id k) a w =
      let (a', w') = unsubscribe api sub_id a w in perform-Kept k a' w'
  perform-Kept (then_publish p k) a w = perform-Kept k a _
  perform-Kept (then_republish p k) a w = perform-Kept k a _
  perform-Kept (then_delayed_publish p delay k) a w = perform-Kept k a _
  perform-Kept (then_enqueue_wakeup delay wakeup_id k) a w = perform-Kept k a _
  perform-Kept (then_reply p k) a w = perform-Kept k a _
  perform-Kept (then_block_for f timeout k) a w = perform-Kept k (deffered_block_for f timeout a) w
  perform-Kept (then_fetch_code k) a w =
      let (a', w') = trigger_code_fetch api methods a w in perform-Kept k a' w'
  perform-Kept (then_queue_size k) a w = perform-Kept (k (queue_size a)) a w

  pub run_engine-Kept :
      {R : Type 0} (p : Program (R × E)) (a : Actor E) (w : W)
      → Kept a (run_engine api methods p a w).1
  unfolding run_engine
  run_engine-Kept p a w = perform-Kept p a w

  module _ (hibernation : Bool) where
    pub hibernate-Kept : (a : Actor E) (w : W) → Kept a (hibernate api methods hibernation a w).1
    unfolding hibernate
    hibernate-Kept a w =
        let p = methods.hibernate_internal a.engine in
        let k = run_engine-Kept p a w in
        elim (Bool-cases (run_engine api methods p a w).0) [ inl e ↦ rw e k | inr e ↦ rw e k ]

    pub wakeup-Kept : (a : Actor E) (w : W) → Kept a (wakeup api methods hibernation a w).1
    unfolding wakeup
    wakeup-Kept a w =
        let p = methods.wakeup_internal a.engine in
        let k = run_engine-Kept p a w in
        elim (Bool-cases (is_ok (run_engine api methods p a w).0)) [
          | inl e ↦ rw e k
          | inr e ↦ rw e k
        ]

    pub late_initialize-Kept :
        (code : Text) (a : Actor E) (w : W)
        → Kept a (late_initialize api methods hibernation code a w).1
    unfolding late_initialize
    late_initialize-Kept code a w =
        let p = methods.late_internal_initialize code a.engine in
        let k = run_engine-Kept p a w in
        elim (Bool-cases (is_ok (run_engine api methods p a w).0)) [
          | inl e ↦ rw e k
          | inr e ↦ rw e k
        ]
