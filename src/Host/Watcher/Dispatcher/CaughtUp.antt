-- ===== src/Host/Watcher/Dispatcher/CaughtUp.antt =====
-- The loop of src/host/watcher/dispatcher.ts ends.
use deputy_agent.Prelude.{ℕ, ◌+◌, ◌*◌, max, ◌≤◌, ◌<◌, ◌≡◌, arith, Bool, List, length}
use deputy_agent.Shared.Jsonl.{Codec}
use deputy_agent.Host.Watcher.Dispatcher.{
  OffsetTracker, WindowInput, WindowEvent, dispatch_window, dispatch_read, kept_back, advanced,
}

module _ (c : Codec) (w : ℕ) where
  -- Every outcome moves the due time on by one window.
  pub dispatch_window-due :
      (t : OffsetTracker) (is_final : Bool) (input : WindowInput)
      → (dispatch_window c w t is_final input).0.next_window_due_mono ≡ t.next_window_due_mono + w
  unfolding dispatch_window dispatch_read kept_back advanced
  dispatch_window-due t is_final input = ground arith

  -- the last tracker is due after now, by whole windows, and by no more than one
  abbrev pub IsCaughtUp : ℕ → OffsetTracker → OffsetTracker × List WindowEvent → Type 0
  IsCaughtUp mono t (last, events) =
      (mono < last.next_window_due_mono)
      × ((last.next_window_due_mono ≡ t.next_window_due_mono + length events * w)
          × (last.next_window_due_mono ≤ max t.next_window_due_mono (mono + w)))
