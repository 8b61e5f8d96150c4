-- ===== src/Voice/Network/Receive.antt =====
-- The receive pump
-- (addon/extensions/task_force_radio_pipe/src/Voice/VoiceNetworkClient.cpp: pumpReceive).
use task_force_radio_standal.Base.{
  take, drop, All, Text, is_empty, ℕ, zero, suc, ◌≡◌, refl, ap, false, List, [], ◌∷◌, ◌++◌,
}
use task_force_radio_standal.Voice.Network.{Event, handle_packet, Client}
use task_force_radio_standal.Voice.Network.Thread.{or_nothing, pump_loop, pump_receive}

-- The callbacks of the datagrams, each by itself.
unfoldable pub events_of : List Text → List Event
events_of [] = []
events_of (datagram ∷ queue) = or_nothing (handle_packet datagram) ++ events_of queue

pump_loop-events :
    (n now : ℕ) (queue : List Text) (c : Client)
    → All (λ d. is_empty d ≡ false) queue
    → ((pump_loop n now queue c).0 ≡ events_of (take n queue))
      × ((pump_loop n now queue c).1 ≡ drop n queue)
unfolding pump_loop events_of
pump_loop-events zero now queue c full = (refl, refl)
pump_loop-events (suc n) now [] c full = (refl, refl)
pump_loop-events (suc n) now ([] ∷ queue) c full = cc
pump_loop-events (suc n) now ((b ∷ bs) ∷ queue) c full =
    let rest = pump_loop-events n now queue (record c { last_recv_time = now }) full.1 in
    (ap (λ l. or_nothing (handle_packet (b ∷ bs)) ++ l) rest.0, rest.1)

-- However many datagrams wait, one pump reads the first 256 of them and leaves the others for the
-- next; a malformed datagram costs its own callback and no other. The datagrams are not empty.
pub pump_receive-bounded :
    (now : ℕ) (queue : List Text) (c : Client)
    → All (λ d. is_empty d ≡ false) queue
    → ((pump_receive now queue c).0 ≡ events_of (take 256 queue))
      × ((pump_receive now queue c).1 ≡ drop 256 queue)
unfolding pump_receive
pump_receive-bounded now queue c full = pump_loop-events 256 now queue c full
