-- ===== src/State/Solver.antt =====
-- The audibility solver of addon/extensions/task_force_radio_pipe/src/State.cpp: how far and by
-- which mast a client is reached (`extrapolatedPosition`, `effectiveDistance`, `antennaLoss`). The
-- ways of hearing one client stand in Paths, the whole snapshot in Snapshot.
pub mod Paths
pub mod Snapshot
pub mod Heard
pub mod Rules
use task_force_radio_standal.Base.{
  if◌then◌else◌, ℕ, ◌-◌, Bool, true, false, not, ◌&&◌, ◌||◌, List, [], ◌∷◌,
}
use task_force_radio_standal.Base.Int.{pos}
use task_force_radio_standal.Float.{Float}
use task_force_radio_standal.Geometry.{
  Vec3, zero_f, one_f, no_antenna_loss, vec_add, vec_scale, distance_to, is_null,
}
use task_force_radio_standal.State.Data.{RemoteClient, AntennaData, State}

module _ (fl : Float) where
  open fl use {F, decimal, lt, le, add, sub, mul, div, of_int, seconds}

  unfoldable pub extrapolated_position : ℕ → RemoteClient fl → Vec3 fl
  extrapolated_position now c =
      let elapsed = seconds (now - c.last_update) in
      if is_null fl c.vehicle.velocity
      then c.position
      else if le elapsed (zero_f fl) || lt (decimal 2 0) elapsed
      then c.position
      else vec_add fl c.position (vec_scale fl c.vehicle.velocity elapsed)

  unfoldable pub effective_distance : Vec3 fl → RemoteClient fl → ℕ → State fl → F
  unfolding extrapolated_position
  effective_distance my_pos other now s =
      let raw = distance_to fl my_pos (extrapolated_position now other) in
      let terrain = mul (of_int other.terrain_interception) s.terrain_interception_coefficient in
      mul (add (add raw terrain) (mul terrain (div raw (decimal 2000 0))))
        s.receiving_distance_multiplicator

  -- Both hops are in reach of the mast: from the sender at `from`, who reaches `max_distance`, and
  -- to the receiver at `to`.
  unfoldable pub reaches : Vec3 fl → F → Vec3 fl → AntennaData fl → Bool
  reaches from max_distance to antenna =
      not (le antenna.range (zero_f fl))
      && lt (distance_to fl antenna.pos from) max_distance
      && lt (distance_to fl antenna.pos to) antenna.range

  unfoldable pub loss_over : Vec3 fl → F → Vec3 fl → AntennaData fl → F
  loss_over from max_distance to antenna =
      add (div (distance_to fl antenna.pos to) antenna.range)
        (div (distance_to fl antenna.pos from) max_distance)

  -- The lowest loss below `lowest`, and whether there is one.
  unfoldable pub lowest_loss : Vec3 fl → F → Vec3 fl → List (AntennaData fl) → F → Bool → F × Bool
  unfolding reaches loss_over
  lowest_loss from max_distance to [] lowest found = (lowest, found)
  lowest_loss from max_distance to (antenna ∷ antennas) lowest found =
      let loss = loss_over from max_distance to antenna in
      let better = reaches from max_distance to antenna && lt loss lowest in
      lowest_loss from max_distance to antennas (if better then loss else lowest)
        (if better then true else found)

  unfoldable pub antenna_loss : Vec3 fl → F → Vec3 fl → State fl → F
  unfolding lowest_loss
  antenna_loss from max_distance to s =
      let (lowest, found) = lowest_loss from max_distance to s.antennas (one_f fl) false in
      if le max_distance (zero_f fl)
      then no_antenna_loss fl
      else if found
      then lowest
      else no_antenna_loss fl
