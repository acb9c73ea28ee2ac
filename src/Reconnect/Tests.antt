-- ===== src/Reconnect/Tests.antt =====
-- The theorems at a client whose connection drops.
use junon.Shared.{◌+◌, ◌≡◌, refl, true, false, not, ◌&&◌, none, some, List, [], ◌∷◌, ◌++◌}
use junon.Reconnect.Data.{
  Settings, reconnecting, restoring, Client, Options, reconnect_settings, are_delays, has_number,
}
use junon.Reconnect.Loop.{
  Event, drops, waits, makes, fails, restores, registers, close, restored, run, new_client,
  usable_connection, is_gone, is_reconnecting,
}
use junon.Reconnect.Closing.{IsClosed, run-close-IsClosed, IsPaced, run-new_client-IsPaced}
use junon.Reconnect.Recovery.{
  Attempt, unmade, unrestored, lost, failures, IsBack, run-failures-IsBack, never_closes, IsStuck,
  run-restored-IsStuck,
}
use junon.Reconnect.Handlers.{attached_to, has_none, run-new_client-attached}

abbrev settings : Settings
settings = record {
  initial_delay_ms = 100;
  max_delay_ms = 5000;
  restore_timeout_ms = 30000;
  scaled = λ base. base + base;
  jittered = λ n base. base;
}

abbrev events : List Event
events = registers 1 ∷ drops 7 ∷ waits ∷ fails ∷ waits ∷ makes 8 ∷ restores ∷ []

run-close-IsClosed_example :
    IsClosed (run settings (close (new_client 7)) events)
    × (usable_connection (run settings (close (new_client 7)) events) ≡ is_gone)
run-close-IsClosed_example = run-close-IsClosed settings (new_client 7) events refl

abbrev defaults : Options
defaults = record { initial_delay_ms = none; max_delay_ms = none; restore_timeout_ms = none }

accepted : reconnect_settings defaults (λ base. base + base) (λ n base. base) ≡ some settings
unfolding reconnect_settings are_delays
accepted = refl

run-new_client-IsPaced_example : IsPaced settings (run settings (new_client 7) events)
run-new_client-IsPaced_example =
    run-new_client-IsPaced defaults (λ base. base + base) (λ n base. base) settings 7 events
      accepted

abbrev attempts : List Attempt
attempts = unmade ∷ unrestored 9 ∷ lost 10 ∷ []

run-failures-IsBack_example :
    IsBack
      (run settings
        (new_client 7)
        (drops 7 ∷ failures attempts ++ (waits ∷ makes 8 ∷ restores ∷ [])))
      8
      2
run-failures-IsBack_example =
    run-failures-IsBack settings (new_client 7) 7 8 attempts refl refl refl

-- The connection 8 has dropped while its session was restored.
abbrev late : Client
late = record (new_client 7) {
  current = none;
  candidate = some 8;
  status = reconnecting 1 100;
  phase = restoring 1 100 8;
  alive = [];
}

run-restored-IsStuck_example :
    IsStuck (run settings (restored late) (waits ∷ makes 9 ∷ [])) (reconnecting 1 100)
    × (usable_connection (run settings (restored late) (waits ∷ makes 9 ∷ [])) ≡ is_reconnecting)
unfolding has_number never_closes
run-restored-IsStuck_example =
    run-restored-IsStuck settings late 1 100 8 (waits ∷ makes 9 ∷ []) refl refl refl refl refl

run-new_client-attached_example :
    (attached_to
        (run settings (new_client 7) events).current
        (run settings (new_client 7) events).handlers
      ≡ true)
    × (attached_to
          (run settings (new_client 7) events).candidate
          (run settings (new_client 7) events).handlers
        ≡ true)
    × ((not (has_none (run settings (new_client 7) events).current)
          && not (has_none (run settings (new_client 7) events).candidate))
        ≡ false)
run-new_client-attached_example = run-new_client-attached settings 7 events
