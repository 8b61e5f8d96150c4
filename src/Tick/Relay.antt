-- ===== src/Tick/Relay.antt =====
-- When our transmission is announced to the others
-- (addon/extensions/task_force_radio_pipe/src/Extension.cpp: senderMain).
use task_force_radio_standal.Base.{
  ltb, leb, if◌then◌else◌, length, ℕ, suc, ◌-◌, ◌≡◌, ap, ◌∙◌, Bool, true, false, ◌||◌, List, [],
  ◌∷◌, arith,
}
use task_force_radio_standal.Tick.{Announcement, TxRelay, is_changed, repeat_inactive, relay_tick}
use Prim.Native.Nat.{min}
use mathlib.Core.Path.{ap₂}

-- The number of announcements that a run of ticks sends, each tick at its time, while the
-- transmission stays as it is.
unfoldable pub count_sends : List ℕ → Announcement → TxRelay → ℕ
count_sends [] tx r = 0
count_sends (now ∷ times) tx r =
    let (send, r') = relay_tick now tx r in
    let later = count_sends times tx r' in if send then suc later else later

-- What one tick does while nothing is transmitted.
idle_tick :
    (now : ℕ) (tx : Announcement) (r : TxRelay)
    → tx.active ≡ false
    → r.sent.active ≡ false
    → ((relay_tick now tx r).0 ≡ ltb 0 r.inactive_repeats_left)
      × ((relay_tick now tx r).1.sent.active ≡ false)
      × ((relay_tick now tx r).1.inactive_repeats_left ≡ r.inactive_repeats_left - 1)
unfolding relay_tick is_changed repeat_inactive
idle_tick now tx r idle quiet = (ground arith, ground arith, ground arith)

ending_tick :
    (now : ℕ) (tx : Announcement) (r : TxRelay)
    → tx.active ≡ false
    → r.sent.active ≡ true
    → ((relay_tick now tx r).0 ≡ true)
      × ((relay_tick now tx r).1.sent.active ≡ false)
      × ((relay_tick now tx r).1.inactive_repeats_left ≡ 2)
unfolding relay_tick is_changed repeat_inactive
ending_tick now tx r idle on = (ground arith, ground arith, ground arith)

count_if : Bool → ℕ → ℕ
count_if b n = if b then suc n else n

idle_sends :
    (times : List ℕ) (tx : Announcement) (r : TxRelay)
    → tx.active ≡ false
    → r.sent.active ≡ false
    → count_sends times tx r ≡ min (length times) r.inactive_repeats_left
unfolding count_sends count_if
idle_sends [] tx r idle quiet = omega arith
idle_sends (now ∷ times) tx r idle quiet =
    let (send, sent, left) = idle_tick now tx r idle quiet in
    let rest = idle_sends times tx (relay_tick now tx r).1 idle sent in
    let total : count_if (ltb 0 r.inactive_repeats_left)
          (min (length times) (r.inactive_repeats_left - 1))
        ≡ min (suc (length times)) r.inactive_repeats_left =
      ground arith in
    ap₂ count_if send (rest ∙ ap (min (length times)) left) ∙ total

-- The end of a transmission is announced on three ticks and then no more, however long we stay
-- idle: once, and twice again in case a datagram is lost.
pub end_is_announced_thrice :
    (times : List ℕ) (tx : Announcement) (r : TxRelay)
    → tx.active ≡ false
    → r.sent.active ≡ true
    → count_sends times tx r ≡ min (length times) 3
unfolding count_sends count_if
end_is_announced_thrice [] tx r idle on = omega arith
end_is_announced_thrice (now ∷ times) tx r idle on =
    let (send, sent, left) = ending_tick now tx r idle on in
    let rest = idle_sends times tx (relay_tick now tx r).1 idle sent in
    let total : suc (min (length times) 2) ≡ min (suc (length times)) 3 = omega arith in
    ap₂ count_if send (rest ∙ ap (min (length times)) left) ∙ total

-- A transmission that lasts and stays as announced is announced again exactly when 500 ms have
-- passed since it was announced last; any change of it, its begin included, is announced at once.
active_is_refreshed :
    (now : ℕ) (tx : Announcement) (r : TxRelay)
    → tx.active ≡ true
    → (relay_tick now tx r).0 ≡ (is_changed tx r.sent || leb 500000000 (now - r.last_send))
unfolding relay_tick repeat_inactive
active_is_refreshed now tx r on = ground arith
