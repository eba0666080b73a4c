-- ===== src/Tcp/Listener.antt =====
-- core/include/network/transport/tcp/TCPListener.hpp. The callback that observes the accepted
-- sessions is left out; `accept`, which works on the engine, is in Engine.Simulation.Sessions.
use gns.Base.{ℕ, ◌++◌, ◌==◌, Bool, true, List, [], ◌∷◌, length, remove_if}
use gns.Base.Ints.{ℤ, pos}

pub record TcpListener : Type 0 where
  pub node_id : ℤ
  pub backlog : ℤ
  pub listening : Bool
  pub active_sessions : List ℕ

abbrev pub invalid_session_id : ℕ
invalid_session_id = 18446744073709551615

abbrev pub default_backlog : ℤ
default_backlog = pos 128

unfoldable pub create_listener : ℤ → ℤ → TcpListener
create_listener node_id backlog = record {
  node_id = node_id;
  backlog = backlog;
  listening = true;
  active_sessions = [];
}

unfoldable pub set_backlog : TcpListener → ℤ → TcpListener
set_backlog l backlog = record l { backlog = backlog }

unfoldable pub set_listening : TcpListener → Bool → TcpListener
set_listening l value = record l { listening = value }

unfoldable pub get_active_connections : TcpListener → ℤ
get_active_connections l = pos (length l.active_sessions)

unfoldable pub track_session : TcpListener → ℕ → TcpListener
track_session l session_id = record l { active_sessions = l.active_sessions ++ session_id ∷ [] }

unfoldable pub untrack_session : TcpListener → ℕ → TcpListener
untrack_session l session_id = record l {
  active_sessions = remove_if (λ id. id == session_id) l.active_sessions;
}
