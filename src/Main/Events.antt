-- ===== src/Main/Events.antt =====
-- The event loop of src/main.c. `poll`, the read of an event, `errno` and `close` are parameters.
-- The test of the number that was read compares it as unsigned, so no read counts as failed.
use klunok.Prelude.{ℕ, zero, suc, ◌/◌, ◌%◌, Bool, ◌&&◌, not, Option, Text, ◌==◌, if◌then◌else◌}
use klunok.Trace.{Host, ok, try, throw_static, finally_rethrow_static}
use klunok.Messages.{
  main_fanotify_cannot_poll, main_fanotify_cannot_read_event, main_fanotify_version_mismatch,
  main_fanotify_queue_overflow, main_cannot_handle_exec, main_cannot_handle_write,
  main_cannot_handle_timeout,
}
use klunok.System.{System, Errno, throw_errno}
use klunok.Linq.{Pause}
use klunok.Handler.Settings.{Settings, Handler}
use klunok.Handler.Settings.Executions.{handle_open_exec}
use klunok.Handler.Settings.Versions.Stores.{handle_pause}
use klunok.Handler.Settings.Writes.{handle_close_write}

-- The result of `poll`, with the `revents` of both descriptors.
pub data Polled : Type 0 where
  poll_fails times_out : Polled
  wakes : ℕ → ℕ → Polled

pub record Event : Type 0 where
  pub vers : ℕ
  pub mask : ℕ
  pub fd : ℕ
  pub pid : ℕ

-- `mask & 2 ^ n`, for the `n`th power.
abbrev pub has_bit : ℕ → ℕ → Bool
has_bit power mask = mask / power % 2 == 1

-- `FAN_CLOSE_WRITE`, `FAN_OPEN_EXEC` and `FAN_Q_OVERFLOW`
abbrev pub closes_write : Event → Bool
closes_write event = has_bit 0x8 event.mask

abbrev pub opens_exec : Event → Bool
opens_exec event = has_bit 0x1000 event.mask

abbrev pub overflows : Event → Bool
overflows event = has_bit 0x4000 event.mask

pub record Service (sys : System) : Type 0 where
  pub load_config : Option Text → sys.State → Host → Option Settings × sys.State × Host
  pub poll : Pause → sys.State → Polled × sys.State
  pub read_event : sys.State → Event × sys.State
  pub errno : sys.State → Errno
  pub metadata_version : ℕ
  pub self : ℕ

module _ (sys : System) (service : Service sys) (tries entries : ℕ) where
  abbrev pub Handled : Type 0
  Handled = Handler × sys.State × Host

  abbrev pub end_handle : ℕ → Event → Handled → Handled
  end_handle message event (handler, s, h) =
      (handler, sys.close event.fd s, finally_rethrow_static message h)

  -- What follows on an event that was read.
  unfoldable pub handle_event : Event → Handler → sys.State → Host → Handled
  handle_event event handler s h =
      if not (event.vers == service.metadata_version)
      then (handler, s, throw_static main_fanotify_version_mismatch h)
      else if overflows event
      then (handler, s, throw_static main_fanotify_queue_overflow h)
      else if opens_exec event
      then end_handle main_cannot_handle_exec event
          (handle_open_exec sys event.pid event.fd handler s (try h))
      else if closes_write event && not (event.pid == service.self)
      then end_handle main_cannot_handle_write event (
          handle_close_write sys service.load_config tries entries event.pid event.fd handler s
            (try h))
      else (handler, sys.close event.fd s, h)

  abbrev pub event_read : Handler → Event × sys.State → Host → Handled
  event_read handler (event, s) h =
      let handled = handle_event event handler s h in if ok h then handled else (handler, s, h)

  -- Whether the loop goes on behind a call of `poll`.
  pub data Turn : Type 0 where
    exits : Turn
    goes : Handled → Turn

  unfoldable pub handle_polled : Handler → Polled × sys.State → Host → Turn
  handle_polled handler (poll_fails, s) h =
      goes
        (handler, s, throw_static main_fanotify_cannot_poll (throw_errno sys (service.errno s) h))
  handle_polled handler (times_out, s) h = goes (handler, s, h)
  handle_polled handler (wakes first second, s) h =
      if not (first == 1) && not (second == 1)
      then goes
          (handler, s, throw_static main_fanotify_cannot_poll (throw_errno sys (service.errno s) h))
      else if has_bit 1 first
      then goes (
          event_read handler (service.read_event s)
            (finally_rethrow_static main_fanotify_cannot_read_event (try h)))
      else exits

  -- How the loop ends: with `EXIT_SUCCESS`, with `EXIT_FAILURE` and an error, or it does not end
  -- within the given number of rounds.
  pub data Ending : Type 0 where
    success : Ending
    failure : sys.State → Host → Ending
    unended : Handler → sys.State → Host → Ending

  abbrev pub end_round :
      (Pause → Handler → sys.State → Host → Ending) → Pause × Handler × sys.State × Host → Ending
  end_round again (pause, handler, s, h) =
      let h' = finally_rethrow_static main_cannot_handle_timeout h in
      let rest = again pause handler s h' in if not (ok h') then failure s h' else rest

  abbrev pub turn_round : (Pause → Handler → sys.State → Host → Ending) → Turn → Ending
  turn_round again exits = success
  turn_round again (goes (handler, s, h)) =
      end_round again (handle_pause sys tries entries handler s (try h))

  -- The loop.
  unfoldable pub run : ℕ → Pause → Handler → sys.State → Host → Ending
  run zero pause handler s h = unended handler s h
  run (suc rounds) pause handler s h =
      turn_round (run rounds) (handle_polled handler (service.poll pause s) h)
