-- ===== src/Engine/Timeouts/Lost.antt =====
-- The events of core/src/engine/events when the network does not take the packet that they send.
use gns.Base.{
  ℕ, ◌≡◌, ◌⊎◌, inl, inr, refl, ap, ◌∙◌, Bool, true, false, not, ◌||◌, leb, Option, none, some, List,
  if_cases, arith,
}
use gns.Base.Ints.{ℤ, minus_one, eq_int, is_negative, to_size}
use gns.Base.Floats.{Float}
use gns.Network.Link.{Link}
use gns.Network.Packet.{Packet}
use gns.Network.Topology.{topology_size, get_links_from_node}
use gns.Tcp.Segment.{TcpSegment}
use gns.Tcp.Connection.{TcpConnection, is_established}
use gns.Tcp.Connection.Sending.{get_outstanding_segment, can_retransmit, mark_segment_retransmitted}
use gns.Tcp.Session.{TcpSession}
use gns.Engine.Simulation.{SimulationEngine, now, get_next_hop}
use gns.Engine.Simulation.Packets.{send_packet, put_link, select_link}
use gns.Engine.Simulation.Releases.{send_packet-cases}
use gns.Engine.Simulation.Sessions.{get_tcp_session}
use gns.Engine.Simulation.Transport.{send_over, send_along, send_packet_through_topology}
use gns.Engine.Timeouts.{
  update_client, retransmission, retransmit, resend, resend_in, execute_retransmission,
}

module _ {T : Type 0} (f : Float T) where
  -- Nothing is under way after the call, and the sessions are those from before.
  abbrev Quiet : SimulationEngine T → SimulationEngine T × Bool → Type 0
  Quiet e r =
      (r.1 ≡ true)
      ⊎ ((r.0.event_queue ≡ e.event_queue) × (r.0.packets_in_transit ≡ e.packets_in_transit))

  link-Quiet :
      (e : SimulationEngine T) (pkt : Packet T) (link : Link T) (time draw : T)
      → Quiet e (let r = send_packet f e pkt link time draw in (put_link r.0 r.1, r.2))
  unfolding put_link
  link-Quiet e pkt link time draw = elim (send_packet-cases f e pkt link time draw) [
    | inl r ↦ inr (r.events, r.transit)
    | inr l ↦ inl l.answer
  ]

  over-Quiet :
      (e : SimulationEngine T) (pkt : Packet T) (draw : T) (l : Option (Link T))
      → Quiet e (send_over f e pkt draw l)
  unfolding send_over
  over-Quiet e pkt draw none = inr (refl, refl)
  over-Quiet e pkt draw (some link) = link-Quiet e pkt link (now e) draw

  along-Quiet :
      (e : SimulationEngine T) (pkt : Packet T) (next : ℤ) (draw : T) (row : Option (List ℕ))
      → Quiet e (send_along f e pkt next draw row)
  unfolding send_along
  along-Quiet e pkt next draw none = inr (refl, refl)
  along-Quiet e pkt next draw (some row) =
      over-Quiet e pkt draw (select_link e.topology.links row pkt.current_node next)

  through-Quiet :
      (e : SimulationEngine T) (pkt : Packet T) (draw : T)
      → Quiet e (send_packet_through_topology f e pkt draw)
  unfolding send_packet_through_topology
  through-Quiet e pkt draw =
      let next = get_next_hop e pkt.current_node pkt.destination in
      if_cases (Quiet e) (eq_int next minus_one) _ _ (λ h. inr (refl, refl))
        (λ h.
          if_cases (Quiet e)
            (is_negative pkt.current_node
              || leb (topology_size e.topology) (to_size pkt.current_node))
            _ _ (λ k. inr (refl, refl))
            (λ k. along-Quiet e pkt next draw (get_links_from_node e.topology pkt.current_node)))

  lost_events :
      (e : SimulationEngine T) (pkt : Packet T) (draw : T)
      → (send_packet_through_topology f e pkt draw).1 ≡ false
      → ((send_packet_through_topology f e pkt draw).0.event_queue ≡ e.event_queue)
        × ((send_packet_through_topology f e pkt draw).0.packets_in_transit ≡ e.packets_in_transit)
  lost_events e pkt draw h = elim (through-Quiet e pkt draw) [
    | inl sent ↦ ground (arith, h, sent)
    | inr quiet ↦ quiet
  ]

  -- The client of a retransmission, once it has marked the segment.
  abbrev pub marked : SimulationEngine T → TcpSession T → ℕ → TcpConnection T
  marked e s sequence = (mark_segment_retransmitted s.client_connection sequence (now e)).0

  abbrev pub before_resend : SimulationEngine T → ℕ → TcpSession T → ℕ → SimulationEngine T
  before_resend e session_id s sequence = update_client e session_id s (marked e s sequence)

  resend_kept :
      (e : SimulationEngine T) (session_id : ℕ) (s : TcpSession T) (sequence : ℕ)
      → ((before_resend e session_id s sequence).event_queue ≡ e.event_queue)
        × ((before_resend e session_id s sequence).packets_in_transit ≡ e.packets_in_transit)
  unfolding update_client
  resend_kept e session_id s sequence = (refl, refl)

  resend_open :
      (e : SimulationEngine T) (s : TcpSession T) (segment : TcpSegment) (session_id sequence : ℕ)
      (draw : T)
      → is_established s.client_connection ≡ true
      → can_retransmit s.client_connection sequence ≡ true
      → resend f e s session_id sequence draw (some segment)
        ≡ retransmit f e s segment session_id sequence draw
  unfolding resend
  resend_open e s segment session_id sequence draw established allowed =
      if_cases (λ r. r ≡ retransmit f e s segment session_id sequence draw)
        (not (is_established s.client_connection)) _ _ (λ h. ground (arith, h, established))
        (λ h.
          if_cases (λ r. r ≡ retransmit f e s segment session_id sequence draw)
            (not (can_retransmit s.client_connection sequence)) _ _
            (λ k. ground (arith, k, allowed)) (λ k. refl))

  retransmits :
      (e : SimulationEngine T) (s : TcpSession T) (segment : TcpSegment) (session_id sequence : ℕ)
      (draw : T)
      → get_tcp_session e session_id ≡ some s
      → get_outstanding_segment s.client_connection sequence ≡ some segment
      → is_established s.client_connection ≡ true
      → can_retransmit s.client_connection sequence ≡ true
      → execute_retransmission f e session_id sequence draw
        ≡ retransmit f e s segment session_id sequence draw
  unfolding execute_retransmission resend_in
  retransmits e s segment session_id sequence draw found held established allowed =
      ap (resend_in f e session_id sequence draw) found
      ∙ ap (resend f e s session_id sequence draw) held
      ∙ resend_open e s segment session_id sequence draw established allowed

  lost_resend :
      (e : SimulationEngine T) (s : TcpSession T) (segment : TcpSegment) (session_id sequence : ℕ)
      (draw : T)
      → (send_packet_through_topology f
          (before_resend e session_id s sequence)
          (retransmission f
            (before_resend e session_id s sequence)
            (marked e s sequence)
            segment
            session_id)
          draw).1
        ≡ false
      → let e' = retransmit f e s segment session_id sequence draw in
        (e'.event_queue ≡ e.event_queue) × (e'.packets_in_transit ≡ e.packets_in_transit)
  unfolding retransmit
  lost_resend e s segment session_id sequence draw lost =
      let before = before_resend e session_id s sequence in
      let (events, transit) =
        lost_events before (retransmission f before (marked e s sequence) segment session_id) draw
          lost in
      rw lost (
        events ∙ (resend_kept e session_id s sequence).0,
        transit ∙ (resend_kept e session_id s sequence).1,
      )

  -- When the client of a session is established and sends an outstanding segment again, below the
  -- limit of retransmissions, and the network does not take the packet, then the event schedules
  -- nothing: the events and the packets in transit are those from before.
  pub lost_retransmission :
      (e : SimulationEngine T) (s : TcpSession T) (segment : TcpSegment) (session_id sequence : ℕ)
      (draw : T)
      → get_tcp_session e session_id ≡ some s
      → get_outstanding_segment s.client_connection sequence ≡ some segment
      → is_established s.client_connection ≡ true
      → can_retransmit s.client_connection sequence ≡ true
      → (send_packet_through_topology f
          (before_resend e session_id s sequence)
          (retransmission f
            (before_resend e session_id s sequence)
            (marked e s sequence)
            segment
            session_id)
          draw).1
        ≡ false
      → let e' = execute_retransmission f e session_id sequence draw in
        (e'.event_queue ≡ e.event_queue) × (e'.packets_in_transit ≡ e.packets_in_transit)
  lost_retransmission e s segment session_id sequence draw found held established allowed lost =
      rw (retransmits e s segment session_id sequence draw found held established allowed)
        (lost_resend e s segment session_id sequence draw lost)
