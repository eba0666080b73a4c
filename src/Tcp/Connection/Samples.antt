-- ===== src/Tcp/Connection/Samples.antt =====
-- The congestion history of core/src/network/transport/tcp/TCPConnection.cpp, and what
-- recording one more sample does to it.
use gns.Base.{
  ◌≡◌, refl, inl, inr, Bool, true, false, some, List, [], ◌∷◌, ◌++◌, last?, Bool-cases, arith,
}
use gns.Tcp.Congestion.{CongestionControl, get_cwnd, get_ssthresh}
use gns.Tcp.Connection.{TcpConnection, TcpCongestionSample, same_sample, record_congestion_sample}

module _ {T : Type 0} where
  -- No sample has the window and the threshold of its predecessor.
  abbrev pub NoRepeat : List (TcpCongestionSample T) → Type 0
  NoRepeat [] = Unit
  NoRepeat (s ∷ []) = Unit
  NoRepeat (s ∷ t ∷ ss) = (same_sample (some s) t.cwnd t.ssthresh ≡ false) × NoRepeat (t ∷ ss)

  pub record Recorded (h : List (TcpCongestionSample T)) (control : CongestionControl T)
      : Type 0 where
    pub current : same_sample (last? h) (get_cwnd control) (get_ssthresh control) ≡ true
    pub distinct : NoRepeat h

  abbrev pub HistoryRecorded : TcpConnection T → Type 0
  HistoryRecorded c = Recorded c.congestion_history c.congestion_control

  last?-snoc :
      (h : List (TcpCongestionSample T)) (s : TcpCongestionSample T) → last? (h ++ s ∷ []) ≡ some s
  last?-snoc [] s = refl
  last?-snoc (x ∷ []) s = refl
  last?-snoc (x ∷ y ∷ h) s = last?-snoc (y ∷ h) s

  NoRepeat-snoc :
      (h : List (TcpCongestionSample T)) (s : TcpCongestionSample T)
      → NoRepeat h
      → same_sample (last? h) s.cwnd s.ssthresh ≡ false
      → NoRepeat (h ++ s ∷ [])
  NoRepeat-snoc [] s n e = tt
  NoRepeat-snoc (x ∷ []) s n e = (e, tt)
  NoRepeat-snoc (x ∷ y ∷ h) s n e = (n.0, NoRepeat-snoc (y ∷ h) s n.1 e)

  same_sample_self : (s : TcpCongestionSample T) → same_sample (some s) s.cwnd s.ssthresh ≡ true
  unfolding same_sample
  same_sample_self s = ground arith

  current_sample : TcpConnection T → T → TcpCongestionSample T
  current_sample c now = record {
    timestamp = now;
    cwnd = get_cwnd c.congestion_control;
    ssthresh = get_ssthresh c.congestion_control;
  }

  abbrev is_current : TcpConnection T → Bool
  is_current c =
      same_sample (last? c.congestion_history) (get_cwnd c.congestion_control)
        (get_ssthresh c.congestion_control)

  record_same :
      (c : TcpConnection T) (now : T) → is_current c ≡ true → record_congestion_sample c now ≡ c
  unfolding record_congestion_sample
  record_same c now h = rw h refl

  record_new :
      (c : TcpConnection T) (now : T)
      → is_current c ≡ false
      → record_congestion_sample c now
        ≡ record c { congestion_history = c.congestion_history ++ current_sample c now ∷ [] }
  unfolding record_congestion_sample current_sample
  record_new c now h = rw h refl

  pub record-Recorded :
      (c : TcpConnection T) (now : T)
      → NoRepeat c.congestion_history
      → HistoryRecorded (record_congestion_sample c now)
  unfolding current_sample
  record-Recorded c now n = elim (Bool-cases (is_current c)) [
    | inl h ↦ rw (record_same c now h) (record { current = h; distinct = n })
    | inr h ↦ rw (record_new c now h) (record {
      current =
          rw (last?-snoc c.congestion_history (current_sample c now))
            (same_sample_self (current_sample c now));
      distinct = NoRepeat-snoc c.congestion_history (current_sample c now) n h;
    })
  ]
