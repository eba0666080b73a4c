-- ===== src/Engine/Simulation/Transport.antt =====
-- core/src/network/utils/PacketUtils.cpp.
use gns.Base.{
  Option, ℕ, Bool, true, false, ◌||◌, ◌==◌, none, some, List, [], ◌∷◌, leb, ltb, if◌then◌else◌,
}
use gns.Base.Words.{add_u32}
use gns.Base.Ints.{ℤ, minus_one, is_negative, eq_int, to_size}
use gns.Base.Floats.{Float}
use gns.Network.Link.{Link}
use gns.Network.Link.Queue.{dequeue_transmission}
use gns.Network.Packet.{Packet, new_packet}
use gns.Network.Topology.{topology_size, get_links_from_node}
use gns.Tcp.Segment.{TcpSegment, infer_packet_type, flag_or}
use gns.Tcp.Segment.Flag
use gns.Engine.Simulation.{SimulationEngine, now, get_next_hop}
use gns.Engine.Simulation.Packets.{
  find_link, put_link, select_link, send_packet, remove_packet_in_transit,
}

-- The segment of `sendReset`.
unfoldable pub reset_segment : ℕ → TcpSegment
reset_segment remote_seq = record {
  seq = 0;
  ack = add_u32 remote_seq 1;
  window = 0;
  flags = flag_or Flag.rst Flag.ack;
  payload = [];
}

module _ {T : Type 0} (f : Float T) where
  -- Over the link that was selected, if there is one.
  unfoldable pub send_over :
      SimulationEngine T → Packet T → T → Option (Link T) → SimulationEngine T × Bool
  unfolding send_packet put_link
  send_over e pkt draw none = (e, false)
  send_over e pkt draw (some link) =
      let (e', link', sent) = send_packet f e pkt link (now e) draw in (put_link e' link', sent)

  -- Along the adjacency list of the node; none cannot occur, as the node is in range.
  unfoldable pub send_along :
      SimulationEngine T → Packet T → ℤ → T → Option (List ℕ) → SimulationEngine T × Bool
  unfolding select_link send_over
  send_along e pkt next draw none = (e, false)
  send_along e pkt next draw (some row) =
      send_over e pkt draw (select_link e.topology.links row pkt.current_node next)

  unfoldable pub send_packet_through_topology :
      SimulationEngine T → Packet T → T → SimulationEngine T × Bool
  unfolding get_next_hop get_links_from_node send_along
  send_packet_through_topology e pkt draw =
      let next = get_next_hop e pkt.current_node pkt.destination in
      if eq_int next minus_one
      then (e, false)
      else if is_negative pkt.current_node
          || leb (topology_size e.topology) (to_size pkt.current_node)
      then (e, false)
      else send_along e pkt next draw (get_links_from_node e.topology pkt.current_node)

  unfoldable pub row_has : List ℕ → ℕ → Bool
  row_has [] id = false
  row_has (x ∷ xs) id = x == id || row_has xs id

  -- The slot of the packet in the queue of its last link, if that link is still there.
  unfoldable pub release_slot : SimulationEngine T → Packet T → SimulationEngine T
  unfolding get_links_from_node row_has find_link dequeue_transmission put_link
  release_slot e pkt = elim (get_links_from_node e.topology pkt.previous_node) [
    | none ↦ e
    | some row ↦
        if row_has row pkt.link_id
        then elim (find_link e.topology.links pkt.link_id) [
          | none ↦ e
          | some link ↦
              put_link e
                (dequeue_transmission f link pkt.previous_node pkt.current_node pkt.departure_time
                  pkt.arrival_time).0
        ]
        else e
  ]

  unfoldable pub release_packet_through_topology :
      SimulationEngine T → Packet T → SimulationEngine T × Bool
  unfolding release_slot remove_packet_in_transit
  release_packet_through_topology e pkt =
      let e' =
        if ltb (to_size pkt.previous_node) (topology_size e.topology)
        then release_slot e pkt
        else e in
      if is_negative pkt.previous_node then (e, false) else (
        (remove_packet_in_transit f e' pkt.departure_time pkt.arrival_time pkt.previous_node
            pkt.current_node pkt.link_id).0,
        true,
      )

  unfoldable pub send_reset : SimulationEngine T → ℤ → ℤ → ℕ → ℕ → T → SimulationEngine T × Bool
  unfolding new_packet reset_segment send_packet_through_topology infer_packet_type
  send_reset e from to remote_seq session_id draw =
      let rst = new_packet f from to from (now e) e.global_packet_size session_id in
      let segment = reset_segment remote_seq in
      send_packet_through_topology e
        (record rst { tcp = segment; packet_type = infer_packet_type segment }) draw
