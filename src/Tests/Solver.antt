-- ===== src/Tests/Solver.antt =====
-- Examples of the theorems on the audibility solver.
use task_force_radio_standal.Base.{All, refl}
use task_force_radio_standal.State.Solver.Paths.{scene}
use task_force_radio_standal.State.Solver.Snapshot.{client_paths, compute_audible_units}
use task_force_radio_standal.State.Solver.Heard.{IsRow, compute_audible_units-IsRow}
use task_force_radio_standal.State.Solver.Rules.{AreIntercom, client_paths-spectator}
use task_force_radio_standal.Tests.Data.{fl, alpha_client, bravo_client, at_bravo}

compute_audible_units-IsRow_example :
    All (IsRow fl 5000000000 at_bravo) (compute_audible_units fl 5000000000 at_bravo).0
compute_audible_units-IsRow_example = compute_audible_units-IsRow fl 5000000000 at_bravo

client_paths-spectator_example :
    AreIntercom fl (client_paths fl (scene fl 0 alpha_client bravo_client at_bravo) at_bravo).0
client_paths-spectator_example =
    client_paths-spectator fl (scene fl 0 alpha_client bravo_client at_bravo) at_bravo refl refl
