-- ===== src/Engine/Simulation/Listening.antt =====
-- What accept of core/src/network/transport/tcp/TCPListener.cpp does to the engine.
use gns.Base.{
  ℕ, ◌≡◌, ◌⊎◌, inl, inr, refl, ap, ◌∙◌, true, false, not, ◌&&◌, Option, none, some, List, [], ◌∷◌,
  ◌++◌, length, ltb, length-append, if_cases, unnegated_true, unnegated_false, Bool, Bool-cases,
  arith,
}
use gns.Base.Words.{add_size}
use gns.Base.Ints.{ℤ, pos, negsuc, lt_int}
use gns.Base.Floats.{Float}
use gns.Tcp.StateMachine.{closed, listen, syn_sent}
use gns.Tcp.Connection.{connect, get_tcp_state, set_seq_num}
use gns.Tcp.Connection.Handshake.{mark_syn_sent, listen_on}
use gns.Tcp.Listener.{TcpListener, invalid_session_id, get_active_connections, track_session}
use gns.Tcp.Session.{TcpSession, create_session}
use gns.Tcp.Session.Opening.{new_connection, new_session}
use gns.Engine.Simulation.{SimulationEngine}
use gns.Engine.Simulation.Sessions.{
  map_find, map_emplace, map_store, same_id, create_tcp_session, put_session, admit, accept,
}
use gns.Engine.Simulation.Maps.{map_find-append, map_store-append, map_emplace-fresh}

room :
    (backlog : ℤ) (active : List ℕ) (id : ℕ)
    → (lt_int (pos 0) backlog && not (lt_int (pos (length active)) backlog)) ≡ false
    → (lt_int (pos 0) backlog ≡ false) ⊎ (lt_int backlog (pos (length (active ++ id ∷ []))) ≡ false)
room (negsuc n) active id h = inl refl
room (pos n) active id h = elim (Bool-cases (ltb 0 n)) [
  | inl b ↦ inr (ground (arith, b, h, length-append active (id ∷ [])))
  | inr b ↦ inl b
]

-- A listener that takes no new session: it does not listen, or its backlog is positive and the
-- active connections are not below it.
abbrev pub Refuses : TcpListener → Type 0
Refuses l =
    (l.listening ≡ false)
    ⊎ ((lt_int (pos 0) l.backlog ≡ true) × (lt_int (get_active_connections l) l.backlog ≡ false))

-- A listener that takes one: it listens, and its backlog is not positive or the active connections
-- are below it.
abbrev pub Admits : TcpListener → Type 0
Admits l =
    (l.listening ≡ true)
    × ((lt_int (pos 0) l.backlog ≡ false) ⊎ (lt_int (get_active_connections l) l.backlog ≡ true))

backlog_full :
    (limited free : Bool) → (limited && not free) ≡ true → (limited ≡ true) × (free ≡ false)
backlog_full true free h = (refl, unnegated_false free h)
backlog_full false free h = ground arith

backlog_open :
    (limited free : Bool) → (limited && not free) ≡ false → (limited ≡ false) ⊎ (free ≡ true)
backlog_open true free h = inr (unnegated_true free h)
backlog_open false free h = inl refl

module _ {T : Type 0} (f : Float T) where
  -- The engine with one session more.
  abbrev pub with_session : SimulationEngine T → TcpSession T → SimulationEngine T
  with_session e s = record e {
    sessions = e.sessions ++ (e.next_session_id, s) ∷ [];
    next_session_id = add_size e.next_session_id 1;
  }

  create_tcp_session-fresh :
      (e : SimulationEngine T) (source destination : ℤ)
      → map_find same_id e.sessions e.next_session_id ≡ none
      → let s = new_session f e.next_session_id source destination closed in
        create_tcp_session f e source destination ≡ some (with_session e s, s)
  unfolding create_tcp_session create_session map_emplace
  create_tcp_session-fresh e source destination h =
      let s = new_session f e.next_session_id source destination closed in
      rw (h, map_find-append e.sessions e.next_session_id s h, create_tcp_session)
        (ap
          (λ (es : List (ℕ × TcpSession T)).
            some (record e { sessions = es; next_session_id = add_size e.next_session_id 1 }, s))
          (map_emplace-fresh e.sessions e.next_session_id s h))

  -- The session that a listener starts: the client has sent the SYN with its sequence number, and the server listens.
  pub started : ℕ → ℤ → ℤ → ℕ → TcpSession T
  started id source destination source_seq =
      let s = new_session f id source destination closed in
      record s {
        client_connection = (mark_syn_sent (set_seq_num s.client_connection source_seq)).0;
        server_connection = (listen_on s.server_connection).0;
      }

  put_session-fresh :
      (e : SimulationEngine T) (s s' : TcpSession T)
      → s'.session_id ≡ e.next_session_id
      → map_find same_id e.sessions e.next_session_id ≡ none
      → put_session (with_session e s) s' ≡ with_session e s'
  unfolding put_session
  put_session-fresh e s s' same h =
      ap
        (λ (es : List (ℕ × TcpSession T)). record e {
          sessions = es;
          next_session_id = add_size e.next_session_id 1;
        })
        (ap (λ (k : ℕ). map_store same_id (e.sessions ++ (e.next_session_id, s) ∷ []) k s') same
          ∙ map_store-append e.sessions e.next_session_id s s' h)

  client_sends :
      (local_node remote_node : ℤ) (seq : ℕ)
      → (mark_syn_sent (set_seq_num (new_connection f local_node remote_node) seq)).1 ≡ true
  unfolding mark_syn_sent set_seq_num connect
  client_sends local_node remote_node seq = refl

  server_listens :
      (local_node remote_node : ℤ) → (listen_on (new_connection f local_node remote_node)).1 ≡ true
  unfolding listen_on connect
  server_listens local_node remote_node = refl

  admit-fresh :
      (e : SimulationEngine T) (l : TcpListener) (source : ℤ) (source_seq : ℕ)
      → map_find same_id e.sessions e.next_session_id ≡ none
      → let s = new_session f e.next_session_id source l.node_id closed in
        admit f (with_session e s) l s source_seq ≡ (
          with_session e (started e.next_session_id source l.node_id source_seq),
          track_session l e.next_session_id,
          e.next_session_id,
        )
  unfolding started admit mark_syn_sent listen_on track_session
  admit-fresh e l source source_seq h =
      let s = new_session f e.next_session_id source l.node_id closed in
      rw (admit, client_sends source l.node_id source_seq, server_listens l.node_id source)
        (ap (λ (r : SimulationEngine T). (r, track_session l e.next_session_id, e.next_session_id))
          (put_session-fresh e s (started e.next_session_id source l.node_id source_seq) refl h))

  abbrev admitted_or_none :
      TcpListener
      → ℕ
      → Option (SimulationEngine T × TcpSession T)
      → Option (SimulationEngine T × TcpListener × ℕ)
  admitted_or_none l source_seq none = none
  admitted_or_none l source_seq (some r) = some (admit f r.0 l r.1 source_seq)

  -- What an accepting listener leaves.
  pub record Accepted (e : SimulationEngine T) (l : TcpListener) (source : ℤ) (source_seq : ℕ)
      (r : Option (SimulationEngine T × TcpListener × ℕ)) : Type 0 where
    pub result :
        r
        ≡ some (
          with_session e (started e.next_session_id source l.node_id source_seq),
          track_session l e.next_session_id,
          e.next_session_id,
        )
    pub client_state :
        get_tcp_state (started e.next_session_id source l.node_id source_seq).client_connection
        ≡ syn_sent
    pub client_seq :
        (started e.next_session_id source l.node_id source_seq).client_connection.seq_num
        ≡ source_seq
    pub server_state :
        get_tcp_state (started e.next_session_id source l.node_id source_seq).server_connection
        ≡ listen
    pub within :
        (lt_int (pos 0) l.backlog ≡ false)
        ⊎ (lt_int l.backlog (get_active_connections (track_session l e.next_session_id)) ≡ false)

  started-states :
      (id : ℕ) (source destination : ℤ) (seq : ℕ)
      → (get_tcp_state (started id source destination seq).client_connection ≡ syn_sent)
        × ((started id source destination seq).client_connection.seq_num ≡ seq)
        × (get_tcp_state (started id source destination seq).server_connection ≡ listen)
  unfolding started mark_syn_sent set_seq_num listen_on connect
  started-states id source destination seq = (refl, refl, refl)

  has_room :
      (l : TcpListener) (id : ℕ)
      → (lt_int (pos 0) l.backlog && not (lt_int (get_active_connections l) l.backlog)) ≡ false
      → (lt_int (pos 0) l.backlog ≡ false)
        ⊎ (lt_int l.backlog (get_active_connections (track_session l id)) ≡ false)
  unfolding get_active_connections track_session
  has_room l id h = room l.backlog l.active_sessions id h

  -- The last branch of `accept`.
  accept_some :
      (e : SimulationEngine T) (l : TcpListener) (source : ℤ) (source_seq : ℕ)
      → map_find same_id e.sessions e.next_session_id ≡ none
      → admitted_or_none l source_seq (create_tcp_session f e source l.node_id)
        ≡ some (
          with_session e (started e.next_session_id source l.node_id source_seq),
          track_session l e.next_session_id,
          e.next_session_id,
        )
  accept_some e l source source_seq fresh =
      ap (admitted_or_none l source_seq) (create_tcp_session-fresh e source l.node_id fresh)
      ∙ ap (λ (r : SimulationEngine T × TcpListener × ℕ). some r)
          (admit-fresh e l source source_seq fresh)

  -- While the next session number is free, one of two cases holds, and the listener decides which. It does not
  -- listen, or its backlog is positive and the active connections are not below it: then nothing changes, and the
  -- answer is the invalid number. Or it listens, and its backlog is not positive or the active connections are below
  -- it: then a session is added under that number, whose client has sent a SYN with the given
  -- sequence number and whose server listens, it is tracked and returned, and a positive backlog is not exceeded.
  pub accept-cases :
      (e : SimulationEngine T) (l : TcpListener) (source : ℤ) (source_seq : ℕ)
      → map_find same_id e.sessions e.next_session_id ≡ none
      → (Refuses l × (accept f e l source source_seq ≡ some (e, l, invalid_session_id)))
        ⊎ (Admits l × Accepted e l source source_seq (accept f e l source source_seq))
  unfolding accept
  accept-cases e l source source_seq fresh =
      let out = λ (r : Option (SimulationEngine T × TcpListener × ℕ)).
        (Refuses l × (r ≡ some (e, l, invalid_session_id)))
        ⊎ (Admits l × Accepted e l source source_seq r) in
      let full = lt_int (pos 0) l.backlog && not (lt_int (get_active_connections l) l.backlog) in
      if_cases out (not l.listening) _ _ (λ h. inl (inl (unnegated_false l.listening h), refl))
        (λ listens.
          if_cases out full _ _ (λ h. inl (inr (backlog_full _ _ h), refl))
            (λ free.
              let (client, number, server) =
                started-states e.next_session_id source l.node_id source_seq in
              inr (
                (unnegated_true l.listening listens, backlog_open _ _ free),
                record {
                  result = accept_some e l source source_seq fresh;
                  client_state = client;
                  client_seq = number;
                  server_state = server;
                  within = has_room l e.next_session_id free;
                },
              )))
