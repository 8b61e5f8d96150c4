-- ===== src/Geometry.antt =====
-- The vectors and the audio mathematics of addon/extensions/task_force_radio_pipe/src/Util.h and
-- Util.cpp: `Vec3`, `parseVec3`, `distanceUnderwater`, `volumeMultiplier`, `volumeAttenuation`,
-- `azimuthTo` and `clampf`, over an abstract `float`.
use task_force_radio_standal.Base.{
  ltb, ◌==◌, if◌then◌else◌, length, take, drop, Text, ℕ, zero, suc, ◌-◌, Bool, not, ◌&&◌, ◌||◌,
  Option, none, some, List, [], ◌∷◌,
}
use task_force_radio_standal.Float.{Float}
use task_force_radio_standal.Util.{split, front, back, parse_arma_number}

pub record Vec3 (fl : Float) : Type 0 where
  pub x : fl.F
  pub y : fl.F
  pub z : fl.F

module _ (fl : Float) where
  open fl use {F, decimal, lt, le, eq, add, sub, mul, div, sqrt, pow, atan2, of_int}

  abbrev pub zero_f : F
  zero_f = decimal 0 0

  abbrev pub one_f : F
  one_f = decimal 1 0

  -- `-x` of a literal
  abbrev pub minus : F → F
  minus a = sub zero_f a

  -- `a != b`
  abbrev pub ne : F → F → Bool
  ne a b = not (eq a b)

  abbrev pub no_antenna_loss : F
  no_antenna_loss = decimal 7 0

  abbrev pub speaker_gain : F
  speaker_gain = decimal 4 0

  abbrev pub cant_speak_gain : F
  cant_speak_gain = decimal 14 0

  abbrev pub cant_speak_distance : F
  cant_speak_distance = decimal 5 0

  abbrev pub dd_min_distance : F
  dd_min_distance = decimal 70 0

  abbrev pub dd_max_distance : F
  dd_max_distance = decimal 300 0

  abbrev pub kpi : F
  kpi = decimal 314159265358979323846 20

  abbrev pub null_vec : Vec3 fl
  null_vec = record { x = zero_f; y = zero_f; z = zero_f }

  unfoldable pub vec_add : Vec3 fl → Vec3 fl → Vec3 fl
  vec_add a b = record { x = add a.x b.x; y = add a.y b.y; z = add a.z b.z }

  unfoldable pub vec_sub : Vec3 fl → Vec3 fl → Vec3 fl
  vec_sub a b = record { x = sub a.x b.x; y = sub a.y b.y; z = sub a.z b.z }

  unfoldable pub vec_scale : Vec3 fl → F → Vec3 fl
  vec_scale a f = record { x = mul a.x f; y = mul a.y f; z = mul a.z f }

  unfoldable pub distance_to : Vec3 fl → Vec3 fl → F
  distance_to a b =
      let dx = sub a.x b.x in
      let dy = sub a.y b.y in
      let dz = sub a.z b.z in sqrt (add (add (mul dx dx) (mul dy dy)) (mul dz dz))

  unfoldable pub is_null : Vec3 fl → Bool
  is_null a = eq a.x zero_f && eq a.y zero_f && eq a.z zero_f

  -- The text between the brackets, if there are any; `none` for `end == 0`.
  unfoldable pub strip_brackets : Text → Option Text
  strip_brackets s =
      if front s == b'['
      then (let end = if back s == b']' then length s - 2 else length s - 1 in
          if end == 0 then none else some (take end (drop 1 s)))
      else some s

  vec_of_coords : List Text → Vec3 fl
  unfolding parse_arma_number
  vec_of_coords (a ∷ b ∷ []) = record {
    x = parse_arma_number fl a;
    y = parse_arma_number fl b;
    z = zero_f;
  }
  vec_of_coords (a ∷ b ∷ c ∷ []) = record {
    x = parse_arma_number fl a;
    y = parse_arma_number fl b;
    z = parse_arma_number fl c;
  }
  vec_of_coords (a ∷ b ∷ c ∷ d ∷ []) = record {
    x = parse_arma_number fl a;
    y = parse_arma_number fl b;
    z = parse_arma_number fl c;
  }
  vec_of_coords _ = null_vec

  vec_of_inner : Option Text → Vec3 fl
  unfolding vec_of_coords split
  vec_of_inner none = null_vec
  vec_of_inner (some inner) = vec_of_coords (split inner b',')

  unfoldable pub parse_vec3 : Text → Vec3 fl
  unfolding strip_brackets vec_of_inner
  parse_vec3 s = if ltb (length s) 3 then null_vec else vec_of_inner (strip_brackets s)

  unfoldable pub distance_underwater : Vec3 fl → Vec3 fl → F
  unfolding distance_to vec_add vec_sub
  distance_underwater a b =
      if lt zero_f a.z && lt zero_f b.z
      then zero_f
      else if lt a.z zero_f && lt b.z zero_f
      then distance_to a b
      else (let lower = if lt a.z b.z then a else b in
          let upper = if lt b.z a.z then a else b in
          let diff = vec_sub upper lower in
          if eq diff.z zero_f || eq lower.z zero_f
          then zero_f
          else (let divisor = div diff.z (mul lower.z (minus one_f)) in
              if eq divisor zero_f
              then zero_f
              else (let to_water : Vec3 fl = record {
                x = div diff.x divisor;
                y = div diff.y divisor;
                z = div diff.z divisor;
              } in
                  let intersect = vec_add lower to_water in
                  if lt a.z zero_f then distance_to a intersect else distance_to b intersect)))

  -- volumeLevel = ((radioVolume0to10 + 1) / 10) ^ 4
  unfoldable pub volume_multiplier : F → F
  volume_multiplier v = pow (div (add v one_f) (decimal 10 0)) (decimal 4 0)

  unfoldable pub volume_attenuation : F → Bool → F → F → F
  volume_attenuation distance should_player_hear max_audible multiplier =
      if le distance one_f
      then one_f
      else (let max_distance =
            if should_player_hear then mul max_audible multiplier else cant_speak_distance in
          if le max_distance zero_f
          then zero_f
          else (let gain = pow (decimal 10 0) (
                div (mul (div distance (mul max_distance (decimal 2 0))) (minus (decimal 60 0)))
                  (decimal 20 0)) in
              if lt gain (decimal 1 3) then zero_f else if lt gain one_f then gain else one_f))

  -- The two loops of `wrapPi`, on fuel: a difference of two bearings needs one round at most.
  unfoldable pub wrap_down : ℕ → F → F
  wrap_down zero angle = angle
  wrap_down (suc fuel) angle =
      let next = wrap_down fuel (sub angle (mul (decimal 2 0) kpi)) in
      if lt kpi angle then next else angle

  unfoldable pub wrap_up : ℕ → F → F
  wrap_up zero angle = angle
  wrap_up (suc fuel) angle =
      let next = wrap_up fuel (add angle (mul (decimal 2 0) kpi)) in
      if lt angle (minus kpi) then next else angle

  unfoldable pub wrap_pi : F → F
  unfolding wrap_down wrap_up
  wrap_pi angle = wrap_up 2 (wrap_down 2 angle)

  unfoldable pub azimuth_to : Vec3 fl → Vec3 fl → Vec3 fl → F
  unfolding vec_sub wrap_pi
  azimuth_to listener view target =
      let delta = vec_sub target listener in
      if eq delta.x zero_f && eq delta.y zero_f
      then zero_f
      else (let view_bearing =
            if ne view.x zero_f || ne view.y zero_f then atan2 view.x view.y else zero_f in
          wrap_pi (sub (atan2 delta.x delta.y) view_bearing))

  unfoldable pub clampf : F → F → F → F
  clampf v lo hi = if lt v lo then lo else if lt hi v then hi else v
