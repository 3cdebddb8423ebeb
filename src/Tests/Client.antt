-- ===== src/Tests/Client.antt =====
-- Calls of the typed client and of the fake client, on logs of their requests and actions.
use kube_static_egress_ip.Prelude.{refl, String, true, false, none, some, List, [], ◌∷◌, ◌++◌}
use kube_static_egress_ip.Effect.{ok}
use kube_static_egress_ip.Client.{ListOptions, Request, Rest}
use kube_static_egress_ip.Client.Fake.{Action, Testing}
use kube_static_egress_ip.Client.Recorded.{
  Operation, gets, lists, watches, updates, updates_status, deletes, deletes_collection, RestLaws,
  TestingLaws, called_all, faked_all,
}
use kube_static_egress_ip.Client.Agreement.{Agree, called_all-Agree}
use kube_static_egress_ip.Tests.Directed.{served}

abbrev Sent : Type 0
Sent = List (Request (Unit {0}) (Unit {0}))

-- A server that answers every request with what it is given.
abbrev echoing : Rest (Unit {0}) (Unit {0}) Sent
echoing = record {
  Watcher = Unit {0};
  into = λ r z w. (ok (z, none), w ++ r ∷ []);
  into_list = λ r z w. (ok (z, none), w ++ r ∷ []);
  error_of = λ r w. (ok none, w ++ r ∷ []);
  watch_of = λ r w. (ok (tt, none), w ++ r ∷ []);
}

abbrev echoing_laws : RestLaws echoing
echoing_laws = record {
  sent = λ w. w;
  into-Logs = λ r z. record { at = λ w. refl };
  into_list-Logs = λ r z. record { at = λ w. refl };
  error_of-Logs = λ r. record { at = λ w. refl };
  watch_of-Logs = λ r. record { at = λ w. refl };
}

-- Reactors that answer every action with the default.
abbrev reacting : Testing (List Action)
reacting = record {
  Watcher = Unit {0};
  Selector = String;
  invokes = λ a z w. (ok (some z, none), w ++ a ∷ []);
  invokes_watch = λ a w. (ok (tt, none), w ++ a ∷ []);
  label_of = λ o. some o.label_selector;
  everything = "";
  matches = λ s e. true;
  parses = λ o. true;
}

abbrev reacting_laws : TestingLaws reacting
reacting_laws = record {
  actions = λ w. w;
  invokes-Logs = λ a z. record { at = λ w. refl };
  invokes_watch-Logs = λ a. record { at = λ w. refl };
}

abbrev labelled : ListOptions
labelled = record {
  label_selector = "app=web";
  field_selector = "";
  resource_version = "7";
  watch = false;
}

abbrev operations : List (Operation (Unit {0}) (Unit {0}))
operations =
    gets "eip" tt
    ∷ lists labelled
    ∷ watches labelled
    ∷ updates served
    ∷ updates_status served
    ∷ deletes "eip" tt
    ∷ deletes_collection tt labelled
    ∷ []

called_all-Agree_example :
    Agree echoing echoing_laws reacting reacting_laws "default"
      (called_all echoing "default" operations [])
      (faked_all reacting "default" operations [])
called_all-Agree_example =
    called_all-Agree echoing echoing_laws reacting reacting_laws "default" operations [] []
      (tt, ((refl, refl), (refl, (tt, (tt, (tt, (refl, tt))))))) refl
