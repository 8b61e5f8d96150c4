-- ===== src/Tests/State.antt =====
-- Examples of the theorems on the state and the commands.
use task_force_radio_standal.Command.Grace.{lose_connection, lasting_outage_is_reported}
use task_force_radio_standal.Command.Invariant.{run_calls, run_calls-IsWellFormed}
use task_force_radio_standal.Base.{
  leb, if◌then◌else◌, any, Text, codes, text_eq, ◌-◌, ◌≡◌, refl, true, false, none, some, [], ◌∷◌,
  arith,
}
use task_force_radio_standal.Util.{split, convert_nickname}
use task_force_radio_standal.State.Handlers.{handle_tangent, handle_killed}
use task_force_radio_standal.State.World.{handle_del_radio_towers}
use task_force_radio_standal.State.Queries.{take_transmit_override}
use task_force_radio_standal.State.WellFormed.{IsWellFormed, IsWellFormed-init}
use task_force_radio_standal.State.WellFormed.Towers.{find_antenna, find-handle_del_radio_towers}
use task_force_radio_standal.State.Life.{killed_then_released}
use task_force_radio_standal.Command.{
  Processor, not_connected, not_connected_grace, first_token, payload_of, process,
}
use task_force_radio_standal.Tests.Data.{
  fl, fl-ConstantLaws, alpha, tangent_release, processor, at_transmission, at_mast,
}

abbrev press_call : Text
press_call = codes "TANGENT\tPRESSED\t50.1\t5000\tdigital\tTFAR_anprc152~"

run_calls-IsWellFormed_example :
    IsWellFormed fl (run_calls fl (codes "opus") ((press_call, 1000) ∷ []) processor).state
run_calls-IsWellFormed_example =
    run_calls-IsWellFormed fl fl-ConstantLaws (codes "opus") ((press_call, 1000) ∷ []) processor
      (IsWellFormed-init fl fl-ConstantLaws)

killed_then_released_example :
    ((handle_tangent fl tangent_release (handle_killed fl alpha at_transmission)).alive ≡ false)
    × ((take_transmit_override fl
          (handle_tangent fl tangent_release (handle_killed fl alpha at_transmission))).0
        ≡ some none)
unfolding text_eq convert_nickname
killed_then_released_example =
    killed_then_released fl alpha tangent_release at_transmission refl refl (omega arith) refl refl

mast_is_gone : IsWellFormed fl at_mast
mast_is_gone =
    let start = IsWellFormed-init fl fl-ConstantLaws in
    record {
      clients = tt;
      uids = tt;
      config = tt;
      remote_tx = tt;
      antennas = (refl, tt, tt);
      tangent = start.tangent;
      multiplicator = start.multiplicator;
      speak_volume = start.speak_volume;
    }

find-handle_del_radio_towers_example :
    find_antenna fl (codes "2:1") (handle_del_radio_towers fl (codes "2:1\n2:9") at_mast).antennas
    ≡ (if any (text_eq (codes "2:1")) (split (codes "2:1\n2:9") 0x0a)
        then none
        else find_antenna fl (codes "2:1") at_mast.antennas)
find-handle_del_radio_towers_example =
    find-handle_del_radio_towers fl (codes "2:1") (codes "2:1\n2:9") at_mast mast_is_gone refl

abbrev pos_call : Text
pos_call = codes "POS\tAlpha~"

abbrev connected_processor : Processor fl
connected_processor = record processor { voice = record processor.voice { connected = true } }

-- The link is up for the first POS; a frame's question comes before the next POS, and
-- another and a POS behind it.
lasting_outage_is_reported_example :
    let up = (process fl (codes "opus") pos_call 1000 connected_processor).1 in
    let lost = run_calls fl (codes "opus") ((codes "DFRAME~", 2000) ∷ []) (lose_connection fl up) in
    let (answer, seen) = process fl (codes "opus") pos_call 3000 lost in
    let then_on =
      run_calls fl (codes "opus") ((codes "DFRAME~", 4000) ∷ (pos_call, 5000) ∷ []) seen in
    (answer ≡ codes "OK")
    × ((process fl (codes "opus") pos_call 20000000000 then_on).0
        ≡ (if leb not_connected_grace (20000000000 - 3000) then not_connected else codes "OK"))
unfolding payload_of first_token text_eq
lasting_outage_is_reported_example =
    lasting_outage_is_reported fl (codes "opus") pos_call pos_call pos_call 1000 3000 20000000000
      ((codes "DFRAME~", 2000) ∷ []) ((codes "DFRAME~", 4000) ∷ (pos_call, 5000) ∷ [])
      connected_processor refl refl refl refl (refl, tt) (omega arith)
