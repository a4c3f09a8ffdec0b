-- ===== src/Session/Publishers.antt =====
-- The first publisher of a stream in rtmp_session_command_message.cpp.
use drone_server.Media.Stream.{Stream, is_peer}
use drone_server.Prelude.{List, false, some, true, ℕ, ◌==◌, ◌≡◌}
use drone_server.Prelude.Bytes.{Bytes, bytes_eq}
use drone_server.Session.World.{Action, StreamMap, World}

-- The stream that a session has joined as its publisher: the peers are those it had, and the session.
pub record BecomesPublisher (k : ℕ) (st st' : Stream) : Type 0 where
  pub is_publisher : st'.publisher ≡ some k
  pub is_joined : is_peer k st'.peers ≡ true
  pub same_others : (j : ℕ) → (k == j) ≡ false → is_peer j st'.peers ≡ is_peer j st.peers
  pub same_gop : st'.gop ≡ st.gop
  pub same_url : st'.url ≡ st.url
  pub same_cid : st'.cid ≡ st.cid

-- The map after that, with the other places as they were, and that nothing was done to anybody.
abbrev pub IsPublished : World → Stream → Bytes → StreamMap → List Action → Type 0
IsPublished w st url streams actions =
    ((st' : Stream) × (streams url ≡ some st') × BecomesPublisher w.self st st')
    × ((u : Bytes) → bytes_eq url u ≡ false → streams u ≡ w.streams u)
    × (actions ≡ w.actions)
