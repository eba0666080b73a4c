-- ===== src/Engine/Simulation/Sessions.antt =====
-- The sessions and the listeners of core/src/engine/core/SimulationEngine.cpp, and `accept` of
-- core/src/network/transport/tcp/TCPListener.cpp.
use gns.Base.{
  ℕ, suc, Bool, true, false, not, ◌&&◌, ◌||◌, ◌==◌, Option, none, some, List, [], ◌∷◌, ◌++◌, length,
  leb, if◌then◌else◌,
}
use gns.Base.Words.{add_size}
use gns.Base.Ints.{ℤ, pos, eq_int, lt_int}
use gns.Base.Floats.{Float}
use gns.Tcp.StateMachine.{closed, established, is_state}
use gns.Tcp.Connection.{set_seq_num}
use gns.Tcp.Connection.Handshake.{mark_syn_sent, listen_on}
use gns.Tcp.Listener.{
  TcpListener, invalid_session_id, create_listener, get_active_connections, track_session,
}
use gns.Tcp.Session.{
  TcpSession, create_session, get_state, set_total_packets, mark_traffic_generated,
}
use gns.Engine.Simulation.{SimulationEngine, now, schedule_event, tcp_handshake, packet_generation}

-- `std::map::find`, `emplace`, which keeps an entry that is there, and the change of an entry.
module _ {K V : Type 0} (same : K → K → Bool) where
  unfoldable pub map_find : List (K × V) → K → Option V
  map_find [] key = none
  map_find (e ∷ es) key = let rest = map_find es key in if same e.0 key then some e.1 else rest

  unfoldable pub map_emplace : List (K × V) → K → V → List (K × V)
  unfolding map_find
  map_emplace es key value = elim (map_find es key) [ none ↦ es ++ (key, value) ∷ [] | some _ ↦ es ]

  unfoldable pub map_store : List (K × V) → K → V → List (K × V)
  map_store [] key value = []
  map_store (e ∷ es) key value =
      let rest = map_store es key value in if same e.0 key then (e.0, value) ∷ es else e ∷ rest

abbrev pub same_id : ℕ → ℕ → Bool
same_id a b = a == b

module _ {T : Type 0} where
  -- none where it throws.
  unfoldable pub get_tcp_session : SimulationEngine T → ℕ → Option (TcpSession T)
  unfolding map_find
  get_tcp_session e session_id = map_find same_id e.sessions session_id

  unfoldable pub has_tcp_session : SimulationEngine T → ℕ → Bool
  unfolding get_tcp_session
  has_tcp_session e session_id = elim (get_tcp_session e session_id) [
    | none ↦ false
    | some _ ↦ true
  ]

  -- A change of a session through a reference to it.
  unfoldable pub put_session : SimulationEngine T → TcpSession T → SimulationEngine T
  unfolding map_store
  put_session e s = record e { sessions = map_store same_id e.sessions s.session_id s }

  unfoldable pub has_listener : SimulationEngine T → ℤ → Bool
  unfolding map_find
  has_listener e node_id = elim (map_find eq_int e.listeners node_id) [
    | none ↦ false
    | some l ↦ l.listening
  ]

  unfoldable pub put_listener : SimulationEngine T → ℤ → TcpListener → SimulationEngine T
  unfolding map_store
  put_listener e node_id l = record e { listeners = map_store eq_int e.listeners node_id l }

  unfoldable pub start_tcp_listen : SimulationEngine T → ℤ → ℤ → SimulationEngine T
  unfolding map_emplace create_listener
  start_tcp_listen e node_id backlog = record e {
    listeners = map_emplace eq_int e.listeners node_id (create_listener node_id backlog);
  }

module _ {T : Type 0} (f : Float T) where
  -- none where a constructor or the look-up throws.
  unfoldable pub create_tcp_session :
      SimulationEngine T → ℤ → ℤ → Option (SimulationEngine T × TcpSession T)
  unfolding create_session map_emplace map_find
  create_tcp_session e source destination =
      let id = e.next_session_id in
      elim (create_session f id source destination closed) [
        | none ↦ none
        | some fresh ↦
            let sessions = map_emplace same_id e.sessions id fresh in
            elim (map_find same_id sessions id) [
              | none ↦ none
              | some session ↦
                  some (record e { sessions = sessions; next_session_id = add_size id 1 }, session)
            ]
      ]

  -- `acceptOnListener` once the session is created: the two endpoints, then the listener.
  unfoldable pub admit :
      SimulationEngine T → TcpListener → TcpSession T → ℕ → SimulationEngine T × TcpListener × ℕ
  unfolding set_seq_num mark_syn_sent listen_on put_session track_session
  admit e l session source_seq =
      let (client, sent) = mark_syn_sent (set_seq_num session.client_connection source_seq) in
      let (server, listens) = listen_on session.server_connection in
      let started = record session { client_connection = client } in
      let both = record session { client_connection = client; server_connection = server } in
      if not sent
      then (put_session e started, l, invalid_session_id)
      else if not listens
      then (put_session e both, l, invalid_session_id)
      else (put_session e both, track_session l session.session_id, session.session_id)

  -- `TCPListener::accept`; none where it throws.
  unfoldable pub accept :
      SimulationEngine T → TcpListener → ℤ → ℕ → Option (SimulationEngine T × TcpListener × ℕ)
  unfolding get_active_connections create_tcp_session admit
  accept e l source_node source_seq =
      if not l.listening
      then some (e, l, invalid_session_id)
      else if lt_int (pos 0) l.backlog && not (lt_int (get_active_connections l) l.backlog)
      then some (e, l, invalid_session_id)
      else elim (create_tcp_session e source_node l.node_id) [
        | none ↦ none
        | some r ↦ some (admit r.0 l r.1 source_seq)
      ]

  unfoldable pub accept_on_listener :
      SimulationEngine T → ℤ → ℤ → ℕ → Option (SimulationEngine T × ℕ)
  unfolding map_find accept put_listener
  accept_on_listener e listening_node connecting_node connecting_seq =
      elim (map_find eq_int e.listeners listening_node) [
        | none ↦ some (e, invalid_session_id)
        | some l ↦ elim (accept e l connecting_node connecting_seq) [
          | none ↦ none
          | some r ↦ some (put_listener r.0 listening_node r.1, r.2)
        ]
      ]

  unfoldable pub start_tcp_connection : SimulationEngine T → ℤ → ℤ → Option (SimulationEngine T)
  unfolding create_tcp_session schedule_event
  start_tcp_connection e source dest = elim (create_tcp_session e source dest) [
    | none ↦ none
    | some r ↦
        let scheduled =
          schedule_event f r.0 (f.add (now e) e.handshake_offset)
            (tcp_handshake source dest r.1.session_id) in
        some (record scheduled { handshake_offset = f.add e.handshake_offset (f.literal 5 100) })
  ]

  -- The session is one of the engine's, which the code changes through a reference.
  unfoldable pub generate_packets : SimulationEngine T → T → TcpSession T → SimulationEngine T
  unfolding get_state set_total_packets mark_traffic_generated put_session schedule_event
  generate_packets e start_time session =
      if session.traffic_generated
      then e
      else if not (is_state (get_state session) established)
      then e
      else schedule_event f
          (put_session e (mark_traffic_generated (set_total_packets session e.packets_per_route)))
          start_time (packet_generation session.source session.destination session.session_id)

pub record ValidationReport : Type 0 where
  pub total_sessions : ℕ
  pub completed_sessions : ℕ
  pub expected_data_packets : ℕ
  pub packets_sent : ℕ
  pub packets_delivered : ℕ
  pub packets_lost : ℕ
  pub sessions_ok : Bool
  pub traffic_ok : Bool

unfoldable pub passed : ValidationReport → Bool
passed r = r.sessions_ok && r.traffic_ok

module _ {T : Type 0} where
  unfoldable pub count_closed : List (ℕ × TcpSession T) → ℕ
  unfolding get_state
  count_closed [] = 0
  count_closed (s ∷ ss) =
      if is_state (get_state s.1) closed then suc (count_closed ss) else count_closed ss

  unfoldable pub validate_simulation : SimulationEngine T → ValidationReport
  unfolding count_closed
  validate_simulation e =
      let total = length e.sessions in
      let completed = count_closed e.sessions in
      record {
        total_sessions = total;
        completed_sessions = completed;
        expected_data_packets = 0;
        packets_sent = e.stats.packets_sent;
        packets_delivered = e.stats.packets_delivered;
        packets_lost = e.stats.packets_lost;
        sessions_ok = total == 0 || completed == total;
        traffic_ok =
            not (e.stats.packets_sent == 0)
            && (e.stats.packets_delivered == e.stats.packets_sent
                && (e.stats.packets_lost == 0 && leb (length e.packets_in_transit) 0));
      }
