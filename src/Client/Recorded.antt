-- ===== src/Client/Recorded.antt =====
-- The fake client against the typed client (pkg/client/clientset/versioned/typed/egressip/v1alpha1
-- and its directory fake): what the fake records of a call is what the request of the call asks
-- for.
use kube_static_egress_ip.Prelude.{◌≡◌, ◌∙◌, String, true, false, List, [], ◌∷◌, ◌++◌}
use kube_static_egress_ip.Effect.{M, ◌>>=◌}
use kube_static_egress_ip.Effect.Keeps.{Keeps, continue-Keeps}
use kube_static_egress_ip.Api.{StaticEgressIp}
use kube_static_egress_ip.Client.{
  ListOptions, EgressIpList, Request, Rest, get, list, watch, create, update, update_status, delete,
  delete_collection, patch,
}
use kube_static_egress_ip.Client.Fake.{
  Action, Object, Testing, fake_get, fake_list, fake_watch, fake_create, fake_update,
  fake_update_status, fake_delete, fake_delete_collection, fake_patch,
}

-- A call of the interface of the client.
pub data Operation (G D : Type 0) : Type 0 where
  gets : String → G → Operation G D
  lists : ListOptions → Operation G D
  watches : ListOptions → Operation G D
  creates : StaticEgressIp → Operation G D
  updates : StaticEgressIp → Operation G D
  updates_status : StaticEgressIp → Operation G D
  deletes : String → D → Operation G D
  deletes_collection : D → ListOptions → Operation G D
  patches : String → String → String → List String → Operation G D

-- A call that writes one entry to a log.
pub record Logs {W E A : Type 0} (log : W → List E) (m : M W A) (e : E) : Type 0 where
  pub at : (w : W) → log (m w).1 ≡ log w ++ e ∷ []

module _ {W E : Type 0} {log : W → List E} where
  pub Logs-bind :
      {A B : Type 0} {m : M W A} {e : E} (f : A → M W B)
      → Logs log m e
      → ((a : A) → Keeps log (f a))
      → Logs log (m >>= f) e
  unfolding ◌>>=◌
  Logs-bind {m} f first rest = record {
    at = λ w. continue-Keeps f (m w).0 (m w).1 rest ∙ first.at w;
  }

-- A log of the requests that are sent, and one of the actions that are recorded.
pub record RestLaws {G D W : Type 0} (client : Rest G D W) : Type 0 where
  pub sent : W → List (Request G D)
  pub into-Logs : (r : Request G D) (z : StaticEgressIp) → Logs sent (client.into r z) r
  pub into_list-Logs : (r : Request G D) (z : EgressIpList) → Logs sent (client.into_list r z) r
  pub error_of-Logs : (r : Request G D) → Logs sent (client.error_of r) r
  pub watch_of-Logs : (r : Request G D) → Logs sent (client.watch_of r) r

pub record TestingLaws {W : Type 0} (fake : Testing W) : Type 0 where
  pub actions : W → List Action
  pub invokes-Logs : (a : Action) (z : Object) → Logs actions (fake.invokes a z) a
  pub invokes_watch-Logs : (a : Action) → Logs actions (fake.invokes_watch a) a

module _ {G D W : Type 0} (client : Rest G D W) (ns : String) where
  -- The world after a call, however it ends.
  unfoldable pub called : Operation G D → W → W
  called (gets n o) w = (get client ns n o w).1
  called (lists o) w = (list client ns o w).1
  called (watches o) w = (watch client ns o w).1
  called (creates e) w = (create client ns e w).1
  called (updates e) w = (update client ns e w).1
  called (updates_status e) w = (update_status client ns e w).1
  called (deletes n o) w = (delete client ns n o w).1
  called (deletes_collection d o) w = (delete_collection client ns d o w).1
  called (patches n t b l) w = (patch client ns n t b l w).1

  abbrev pub called_all : List (Operation G D) → W → W
  called_all [] w = w
  called_all (o ∷ l) w = called_all l (called o w)

module _ {W : Type 0} (fake : Testing W) (ns : String) {G D : Type 0} where
  unfoldable pub faked : Operation G D → W → W
  faked (gets n o) w = (fake_get fake ns n w).1
  faked (lists o) w = (fake_list fake ns o w).1
  faked (watches o) w = (fake_watch fake ns o w).1
  faked (creates e) w = (fake_create fake ns e w).1
  faked (updates e) w = (fake_update fake ns e w).1
  faked (updates_status e) w = (fake_update_status fake ns e w).1
  faked (deletes n o) w = (fake_delete fake ns n w).1
  faked (deletes_collection d o) w = (fake_delete_collection fake ns o w).1
  faked (patches n t b l) w = (fake_patch fake ns n t b l w).1

  abbrev pub faked_all : List (Operation G D) → W → W
  faked_all [] w = w
  faked_all (o ∷ l) w = faked_all l (faked o w)

  -- The selectors of the options parse, and those of a list do not ask for a watch.
  abbrev pub Parses : Operation G D → Type 0
  Parses (lists o) = (fake.parses o ≡ true) × (o.watch ≡ false)
  Parses (watches o) = fake.parses o ≡ true
  Parses (deletes_collection d o) = fake.parses o ≡ true
  Parses _ = Unit

  abbrev pub AllParse : List (Operation G D) → Type 0
  AllParse [] = Unit
  AllParse (o ∷ l) = Parses o × AllParse l
