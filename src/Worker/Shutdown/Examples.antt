-- ===== src/Worker/Shutdown/Examples.antt =====
-- A process with one step that receives one signal and ends well.
use high_throughput_transact.Base.{◌≡◌, refl, ◌⊎◌, true, none, some, String, List, [], ◌∷◌, ◌++◌}
use high_throughput_transact.Worker.Shutdown.{
  Process, registered, on_signal, on_settled, settled, signalled, Steps, here, next,
}
use high_throughput_transact.Worker.Shutdown.Exits.{exits}

abbrev one_step : List String
one_step = "stop-poller-and-release-lease" ∷ []

abbrev ended : Process
ended = on_settled (on_settled (on_signal 7 30000 (registered one_step)))

ended_Steps : Steps 30000 (registered one_step) ended
unfolding on_signal on_settled
ended_Steps = next (next (next here (signalled 7 refl)) (settled refl refl)) (settled refl refl)

exits_example :
    ((ended.exit_code ≡ none)
      × (ended.completed ++ ended.remaining ≡ one_step)
      × ((ended.state.shutting_down ≡ true) ⊎ (ended.completed ≡ [])))
    ⊎ ((ended.exit_code ≡ some 0) × (ended.completed ≡ one_step) × (ended.signals ≡ 1))
    ⊎ (ended.exit_code ≡ some 1)
exits_example = exits one_step 30000 ended_Steps
