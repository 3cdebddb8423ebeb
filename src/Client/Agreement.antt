-- ===== src/Client/Agreement.antt =====
-- What the fake client (pkg/client/clientset/versioned/typed/egressip/v1alpha1/fake) records of
-- each call, and what the request of the typed client for it asks for.
use text.Mathlib.TextPositions.{eq_refl}
use mathlib.Core.List.{map-append}
use kube_static_egress_ip.Prelude.{◌≡◌, refl, String, true, Option, none, some, List, [], ◌∷◌, map}
use kube_static_egress_ip.Effect.{Error, M, ◌>>=◌}
use kube_static_egress_ip.Effect.Keeps.{Keeps, Keeps-pure, Keeps-panic}
use kube_static_egress_ip.Client.{
  ListOptions, Request, Rest, get, list, watch, create, update, update_status, delete,
  delete_collection, patch,
}
use kube_static_egress_ip.Client.Fake.{
  Action, list_action, watch_action, delete_action, delete_collection_action,
  staticegressips_resource, staticegressips_kind, restrictions, as_egress_ip, filtered, Object,
  egress_ip, egress_ip_list, foreign, Testing, fake_get, fake_list, fake_watch, fake_create,
  fake_update, fake_update_status, fake_delete, fake_delete_collection, fake_patch,
}
use kube_static_egress_ip.Client.Reading.{as_action}
use kube_static_egress_ip.Client.Recorded.{
  Operation, gets, lists, watches, creates, updates, updates_status, deletes, deletes_collection,
  patches, Logs, Logs-bind, RestLaws, TestingLaws, called, called_all, faked, faked_all, Parses,
  AllParse,
}

as_egress_ip-Keeps :
    {V U : Type 0} (view : V → U) (r : Option Object × Option Error) → Keeps view (as_egress_ip r)
as_egress_ip-Keeps view (none, e) = Keeps-pure _
as_egress_ip-Keeps view (some (egress_ip a), e) = Keeps-pure _
as_egress_ip-Keeps view (some (egress_ip_list l), e) = Keeps-panic _
as_egress_ip-Keeps view (some foreign, e) = Keeps-panic _

module _ {W : Type 0} (fake : Testing W) (F : TestingLaws fake) (ns : String) where
  open F use {actions}

  filtered-Keeps :
      (o : ListOptions) (r : Option Object × Option Error) → Keeps actions (filtered fake ns o r)
  filtered-Keeps o (none, e) = Keeps-pure _
  filtered-Keeps o (some (egress_ip a), e) = Keeps-panic _
  filtered-Keeps o (some (egress_ip_list l), e) = Keeps-pure _
  filtered-Keeps o (some foreign, e) = Keeps-panic _

  invoked-Logs : (a : Action) (z : Object) → Logs actions (fake.invokes a z >>= as_egress_ip) a
  invoked-Logs a z = Logs-bind as_egress_ip (F.invokes-Logs a z) (as_egress_ip-Keeps actions)

  fake_list-Logs :
      (o : ListOptions)
      → fake.parses o ≡ true
      → Logs actions
          (fake_list fake ns o)
          (list_action staticegressips_resource staticegressips_kind ns (restrictions o))
  unfolding fake_list
  fake_list-Logs o p = rw p (Logs-bind (filtered fake ns o) (F.invokes-Logs _ _) (filtered-Keeps o))

  fake_watch-Logs :
      (o : ListOptions)
      → fake.parses o ≡ true
      → Logs actions
          (fake_watch fake ns o)
          (watch_action staticegressips_resource ns (restrictions o) o.resource_version)
  unfolding fake_watch
  fake_watch-Logs o p = rw p (F.invokes_watch-Logs _)

  fake_delete-Logs :
      (n : String)
      → Logs actions (fake_delete fake ns n) (delete_action staticegressips_resource ns n)
  unfolding fake_delete
  fake_delete-Logs n = Logs-bind _ (F.invokes-Logs _ _) (λ _. Keeps-pure _)

  fake_delete_collection-Logs :
      (o : ListOptions)
      → fake.parses o ≡ true
      → Logs actions
          (fake_delete_collection fake ns o)
          (delete_collection_action staticegressips_resource ns (restrictions o))
  unfolding fake_delete_collection
  fake_delete_collection-Logs o p = rw p (Logs-bind _ (F.invokes-Logs _ _) (λ _. Keeps-pure _))

module _ {G D W V : Type 0} (client : Rest G D W) (L : RestLaws client) (fake : Testing V)
    (F : TestingLaws fake) (ns : String) where
  open L use {sent}
  open F use {actions}

  -- The actions that the fake has recorded are those that the requests ask for, in their order.
  abbrev pub Agree : W → V → Type 0
  Agree w v = map as_action (sent w) ≡ map some (actions v)

  logged-Agree :
      {A B : Type 0} {m : M W A} {n : M V B} (r : Request G D) (a : Action)
      → Logs sent m r
      → Logs actions n a
      → as_action r ≡ some a
      → (w : W) (v : V) → Agree w v
      → Agree (m w).1 (n v).1
  logged-Agree {m} {n} r a one other asks w v same =
      rw
        (
          one.at w,
          other.at v,
          map-append as_action (sent w) (r ∷ []),
          map-append some (actions v) (a ∷ []),
          same,
          asks,
        )
        refl

  step-Agree :
      (o : Operation G D) (w : W) (v : V)
      → Parses fake ns o
      → Agree w v
      → Agree (called client ns o w) (faked fake ns o v)
  unfolding called faked get list watch create update update_status delete delete_collection patch
      fake_get fake_create fake_update fake_update_status fake_patch
  step-Agree (gets n o) w v p same =
      logged-Agree {m = get client ns n o} {n = fake_get fake ns n} _ _ (L.into-Logs _ _)
        (invoked-Logs fake F ns _ _) refl w v same
  step-Agree (lists o) w v (p, q) same =
      logged-Agree {m = list client ns o} {n = fake_list fake ns o} _ _ (L.into_list-Logs _ _)
        (fake_list-Logs fake F ns o p) (rw q refl) w v same
  step-Agree (watches o) w v p same =
      logged-Agree {m = watch client ns o} {n = fake_watch fake ns o} _ _ (L.watch_of-Logs _)
        (fake_watch-Logs fake F ns o p) refl w v same
  step-Agree (creates e) w v p same =
      logged-Agree {m = create client ns e} {n = fake_create fake ns e} _ _ (L.into-Logs _ _)
        (invoked-Logs fake F ns _ _) refl w v same
  step-Agree (updates e) w v p same =
      logged-Agree {m = update client ns e} {n = fake_update fake ns e} _ _ (L.into-Logs _ _)
        (invoked-Logs fake F ns _ _) (rw (eq_refl e.name) refl) w v same
  step-Agree (updates_status e) w v p same =
      logged-Agree {m = update_status client ns e} {n = fake_update_status fake ns e} _ _
        (L.into-Logs _ _) (invoked-Logs fake F ns _ _) (rw (eq_refl e.name) refl) w v same
  step-Agree (deletes n o) w v p same =
      logged-Agree {m = delete client ns n o} {n = fake_delete fake ns n} _ _ (L.error_of-Logs _)
        (fake_delete-Logs fake F ns n) refl w v same
  step-Agree (deletes_collection d o) w v p same =
      logged-Agree {m = delete_collection client ns d o} {n = fake_delete_collection fake ns o} _ _
        (L.error_of-Logs _) (fake_delete_collection-Logs fake F ns o p) refl w v same
  step-Agree (patches n t b l) w v p same =
      logged-Agree {m = patch client ns n t b l} {n = fake_patch fake ns n t b l} _ _
        (L.into-Logs _ _) (invoked-Logs fake F ns _ _) refl w v same

  -- Where the sends of the typed client and the invocations of the fake are logged, with selectors
  -- that parse and lists that do not ask for a watch: from logs that agree, any sequence of calls
  -- of the client's interface leaves logs that agree, whatever the calls return. That is, the fake
  -- records for each call the action that the request of the typed client asks for.
  pub called_all-Agree :
      (l : List (Operation G D)) (w : W) (v : V)
      → AllParse fake ns l
      → Agree w v
      → Agree (called_all client ns l w) (faked_all fake ns l v)
  called_all-Agree [] w v p same = same
  called_all-Agree (o ∷ l) w v (p, ps) same =
      called_all-Agree l (called client ns o w) (faked fake ns o v) ps (step-Agree o w v p same)
