-- ===== src/Session/Branches.antt =====
-- The chain of tests on a command's name in rtmp_session_command_message.cpp.
use drone_server.Amf0.{Amf0Data}
use drone_server.Buffer.{SimpleBuffer}
use drone_server.Prelude.{Bool, Option, arith, false, true, ℕ, ◌&&◌, ◌≡◌}
use drone_server.Prelude.Bytes.{Bytes, bytes_eq}
use drone_server.Prelude.Outcome.{Permits, Permits-if}
use drone_server.Session.{State, connect, create_stream, publish_play}
use drone_server.Session.Commands.{
  on_connect_command, on_create_stream, on_delete_stream, on_fc_publish, on_fc_unpublish, on_play,
  on_publish, on_release_stream, run_command,
}
use drone_server.Session.Replies.{
  text_connect, text_create_stream, text_delete_stream, text_fc_publish, text_fc_unpublish,
  text_get_stream_length, text_play, text_publish, text_release_stream,
}
use drone_server.Session.World.{World, is_state, with_session}

-- What holds of the world that each of the commands leaves, holds of the world after the chain.
pub record AllBranches (stoul : Bytes → Option ℕ) (fuel fresh_tid : ℕ) (tid : Amf0Data) (w : World)
    (b : SimpleBuffer) (P : World → Type 0) : Type 0 where
  pub connecting :
      w.session.state ≡ connect → Permits P (with_session w (on_connect_command fuel w.session b))
  pub creating :
      w.session.state ≡ create_stream
      → Permits P (with_session w (on_create_stream fuel tid w.session))
  pub releasing : Permits P (on_release_stream w b)
  pub deleting : Permits P (on_delete_stream fresh_tid w b)
  pub announcing : Permits P (on_fc_publish w b)
  pub withdrawing : Permits P (on_fc_unpublish w b)
  pub publishing : w.session.state ≡ publish_play → Permits P (on_publish stoul fuel w b)
  pub playing : w.session.state ≡ publish_play → Permits P (on_play stoul fuel w b)
  pub idle : P w

is_state-eq : (s t : State) → is_state s t ≡ true → s ≡ t
is_state-eq s t h = ground arith

guarded : (a : Bool) (s t : State) → (a && is_state s t) ≡ true → s ≡ t
guarded true s t h = is_state-eq s t h
guarded false s t h = absurd cc

pub run_command-Permits :
    (stoul : Bytes → Option ℕ) (fuel fresh_tid : ℕ) (name : Bytes) (tid : Amf0Data) (w : World)
    (b : SimpleBuffer) (P : World → Type 0)
    → AllBranches stoul fuel fresh_tid tid w b P
    → Permits P (run_command stoul fuel fresh_tid name tid w b)
unfolding run_command
run_command-Permits stoul fuel fresh_tid name tid w b P h =
    Permits-if _ (bytes_eq name text_connect && is_state w.session.state connect) _ _
      (λ e. h.connecting (guarded (bytes_eq name text_connect) _ _ e))
      λ _.
        Permits-if _ (bytes_eq name text_create_stream && is_state w.session.state create_stream) _
          _ (λ e. h.creating (guarded (bytes_eq name text_create_stream) _ _ e))
          λ _.
            Permits-if _ (bytes_eq name text_release_stream) _ _ (λ _. h.releasing)
              λ _.
                Permits-if _ (bytes_eq name text_delete_stream) _ _ (λ _. h.deleting)
                  λ _.
                    Permits-if _ (bytes_eq name text_fc_publish) _ _ (λ _. h.announcing)
                      λ _.
                        Permits-if _ (bytes_eq name text_fc_unpublish) _ _ (λ _. h.withdrawing)
                          λ _.
                            Permits-if _ (bytes_eq name text_get_stream_length) _ _ (λ _. h.idle)
                              λ _.
                                Permits-if _
                                  (bytes_eq name text_publish
                                    && is_state w.session.state publish_play)
                                  _ _
                                  (λ e. h.publishing (guarded (bytes_eq name text_publish) _ _ e))
                                  λ _.
                                    Permits-if _
                                      (bytes_eq name text_play
                                        && is_state w.session.state publish_play)
                                      _ _ (λ e. h.playing (guarded (bytes_eq name text_play) _ _ e))
                                      (λ _. h.idle)
