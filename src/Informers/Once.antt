-- ===== src/Informers/Once.antt =====
-- Which informers a factory has launched, whatever it was asked for and however often it was
-- started.
use mathlib.Core.List.{append-nil, append_assoc}
use kube_static_egress_ip.Prelude.{
  Option-cases, ◌≡◌, refl, ap, ◌∙◌, ℕ, ◌+◌, ◌≤◌, String, false, inl, inr, none, some, List, [], ◌∷◌,
  ◌++◌, ◌==◌, if◌then◌else◌, arith, eq_iff,
}
use kube_static_egress_ip.Informers.{
  find, holds, SharedInformerFactory, new_shared_informer_factory,
  new_shared_informer_factory_with_options, start, informer_for, Call, request, start_all, run,
}
use kube_static_egress_ip.Informers.Launches.{
  times, or_else, times-append, find-append, number, start_each-holds, start_each-times,
  start_each-find,
}

module _ {I T : Type 0} where
  -- What is known of an informer that a factory has, after any calls.
  informer_for-find :
      (k k' : String) (new_func : ℕ → I) (f : SharedInformerFactory I T)
      → find k (informer_for k' new_func f).1.informers
        ≡ or_else
            (find k f.informers)
            (if k' == k then some (informer_for k' new_func f).0 else none)
  unfolding informer_for find
  informer_for-find k k' new_func f = ground (arith, eq_iff k' k)

  informer_for-started :
      (k : String) (new_func : ℕ → I) (f : SharedInformerFactory I T)
      → (informer_for k new_func f).1.started_informers ≡ f.started_informers
  unfolding informer_for
  informer_for-started k new_func f = ground arith

  pub run-find :
      (l : List (Call I)) (f : SharedInformerFactory I T) (k : String) (i : I)
      → find k f.informers ≡ some i
      → find k (run l f).0.informers ≡ some i
  unfolding run start
  run-find [] f k i q = q
  run-find (request k' new_func ∷ l) f k i q =
      run-find l (informer_for k' new_func f).1 k i (rw (informer_for-find k k' new_func f, q) refl)
  run-find (start_all ∷ l) f k i q = run-find l (start f).0 k i q

  run-times :
      (l : List (Call I)) (f : SharedInformerFactory I T) (k : String)
      → times k (run l f).1 + number (holds k f.started_informers)
        ≡ number (holds k (run l f).0.started_informers)
  unfolding run start times
  run-times [] f k = ground arith
  run-times (request k' new_func ∷ l) f k =
      ground
        (arith, run-times l (informer_for k' new_func f).1 k, informer_for-started k' new_func f)
  run-times (start_all ∷ l) f k = ground (
    arith,
    run-times l (start f).0 k,
    start_each-times f.informers f.started_informers k,
    start_each-holds f.informers f.started_informers k,
    times-append k (start f).1 (run l (start f).0).1,
  )

  -- A start after other calls.
  pub run-append_start :
      (l : List (Call I)) (f : SharedInformerFactory I T)
      → run (l ++ start_all ∷ []) f ≡ ((start (run l f).0).0, (run l f).1 ++ (start (run l f).0).1)
  unfolding run
  run-append_start [] f = ground (arith, append-nil (start f).1)
  run-append_start (request k new_func ∷ l) f = run-append_start l (informer_for k new_func f).1
  run-append_start (start_all ∷ l) f = ground (
    arith,
    run-append_start l (start f).0,
    append_assoc (start f).1 (run l (start f).0).1 (start (run l (start f).0).0).1,
  )

  -- The launched informers, by key: a started one is what the factory has.
  run-launched :
      (l : List (Call I)) (f : SharedInformerFactory I T) (k : String)
      → holds k f.started_informers ≡ false
      → find k (run l f).1
        ≡ (if holds k (run l f).0.started_informers then find k (run l f).0.informers else none)
  unfolding run start find
  run-launched [] f k q = rw q refl
  run-launched (request k' new_func ∷ l) f k q =
      run-launched l (informer_for k' new_func f).1 k
        (ap (holds k) (informer_for-started k' new_func f) ∙ q)
  run-launched (start_all ∷ l) f k q = elim (Option-cases (find k f.informers)) [
    | inl p ↦ ground (
      arith,
      find-append k (start f).1 (run l (start f).0).1,
      start_each-find f.informers f.started_informers k,
      start_each-holds f.informers f.started_informers k,
      run-launched l (start f).0 k,
    )
    | inr (i, p) ↦ ground (
      arith,
      find-append k (start f).1 (run l (start f).0).1,
      start_each-find f.informers f.started_informers k,
      start_each-holds f.informers f.started_informers k,
      run-times l (start f).0 k,
      run-find l (start f).0 k i,
    )
  ]

  launched_lem :
      (l : List (Call I)) (f : SharedInformerFactory I T) (k : String)
      → holds k f.started_informers ≡ false
      → (times k (run l f).1 ≤ 1)
        × (find k (run (l ++ start_all ∷ []) f).1 ≡ find k (run l f).0.informers)
  unfolding start
  launched_lem l f k q =
      let g = (run l f).0 in
      ground (
        arith,
        q,
        run-times l f k,
        run-append_start l f,
        run-launched (l ++ start_all ∷ []) f k q,
        start_each-holds g.informers g.started_informers k,
      )

  pub informer_for-kept :
      (k : String) (new_func : ℕ → I) (f : SharedInformerFactory I T)
      → find k (informer_for k new_func f).1.informers ≡ some (informer_for k new_func f).0
  unfolding informer_for find
  informer_for-kept k new_func f = ground (arith, eq_iff k k)

  informer_for-known :
      (k : String) (new_func : ℕ → I) (f : SharedInformerFactory I T) (i : I)
      → find k f.informers ≡ some i
      → (informer_for k new_func f).0 ≡ i
  unfolding informer_for
  informer_for-known k new_func f i q = rw (informer_for, q) refl

  -- A factory gives the informer that it first gave for a type to all that ask for that type
  -- later, whatever it is called for in between and whatever function is handed in.
  pub informer_for_shared :
      (k : String) (new_func other : ℕ → I) (l : List (Call I)) (f : SharedInformerFactory I T)
      → (informer_for k other (run l (informer_for k new_func f).1).0).0
        ≡ (informer_for k new_func f).0
  informer_for_shared k new_func other l f =
      let (i, f') = informer_for k new_func f in
      informer_for-known k other (run l f').0 i (run-find l f' k i (informer_for-kept k new_func f))

-- Whatever informers a new factory is asked for and however often it is started: no type of objects
-- has its informer launched twice, and when the factory is started again after that, the informer
-- that has been launched for a type is the one that the factory has for it, if any.
pub launched_once :
    {I : Type 0} (T : Type 0) (r : ℕ) (l : List (Call I)) (k : String)
    → (times k (run l (new_shared_informer_factory {I = I} {T = T} r)).1 ≤ 1)
      × (find k (run (l ++ start_all ∷ []) (new_shared_informer_factory {I = I} {T = T} r)).1
          ≡ find k (run l (new_shared_informer_factory {I = I} {T = T} r)).0.informers)
unfolding new_shared_informer_factory new_shared_informer_factory_with_options holds find
launched_once T r l k = launched_lem l (new_shared_informer_factory {T = T} r) k refl
