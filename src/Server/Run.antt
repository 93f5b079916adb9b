-- ===== src/Server/Run.antt =====
-- internal/server/run.go: `Run` and the goroutine that it starts, as the steps that the two take in any
-- order, through the channel of capacity 1 between them. `ListenAndServe`, `Shutdown` and the context
-- are outside: they return what they like, when the steps say so.
-- `server_closed` is `http.ErrServerClosed`, and `is_closed` is `errors.Is` with it.
pub mod Ends
use chuchu.Prelude.{ℕ, zero, suc, Bool, true, false, Option, none, some, if◌then◌else◌}
use chuchu.Apperr.{GoError}

-- The goroutine: in `ListenAndServe`, in front of the send, and at its end.
pub data Server : Type 0 where
  listening : Server
  sending finished : GoError → Server

-- `Run` itself: in the `select`, in `Shutdown`, in front of the last receive, and returned.
pub data Caller : Type 0 where
  selecting shutting_down awaiting : Caller
  returned : Option GoError → Caller

pub record State : Type 0 where
  pub server : Server
  pub caller : Caller
  pub serve_err_ch : Option (Option GoError)
  pub cancelled : Bool
  pub closing : Bool

abbrev pub initial : State
initial = record {
  server = listening;
  caller = selecting;
  serve_err_ch = none;
  cancelled = false;
  closing = false;
}

-- What the goroutine sends for the error of `ListenAndServe`.
unfoldable pub report : (GoError → Bool) → GoError → Option GoError
report is_closed e = if is_closed e then none else some e

module _ (server_closed : GoError) (is_closed : GoError → Bool) where
  -- A step of the program, or of a call that the documentation says returns: `ListenAndServe` once
  -- `Shutdown` was called, and `Shutdown` within its time limit.
  pub data Step : State → State → Type 0 where
    listen_closes :
        {c : Caller} {ch : Option (Option GoError)} {b : Bool}
        → Step
            (record {
              server = listening;
              caller = c;
              serve_err_ch = ch;
              cancelled = b;
              closing = true;
            })
            (record {
              server = sending server_closed;
              caller = c;
              serve_err_ch = ch;
              cancelled = b;
              closing = true;
            })
    sends :
        {c : Caller} {b d : Bool} (e : GoError)
        → Step
            (record {
              server = sending e;
              caller = c;
              serve_err_ch = none;
              cancelled = b;
              closing = d;
            })
            (record {
              server = finished e;
              caller = c;
              serve_err_ch = some (report is_closed e);
              cancelled = b;
              closing = d;
            })
    receives :
        {v : Server} {b d : Bool} (r : Option GoError)
        → Step
            (record {
              server = v;
              caller = selecting;
              serve_err_ch = some r;
              cancelled = b;
              closing = d;
            })
            (record {
              server = v;
              caller = returned r;
              serve_err_ch = none;
              cancelled = b;
              closing = d;
            })
    sees_done :
        {v : Server} {ch : Option (Option GoError)} {d : Bool}
        → Step
            (record {
              server = v;
              caller = selecting;
              serve_err_ch = ch;
              cancelled = true;
              closing = d;
            })
            (record {
              server = v;
              caller = shutting_down;
              serve_err_ch = ch;
              cancelled = true;
              closing = true;
            })
    shutdown_succeeds :
        {v : Server} {ch : Option (Option GoError)} {b d : Bool}
        → Step
            (record {
              server = v;
              caller = shutting_down;
              serve_err_ch = ch;
              cancelled = b;
              closing = d;
            })
            (record {
              server = v;
              caller = awaiting;
              serve_err_ch = ch;
              cancelled = b;
              closing = d;
            })
    shutdown_fails :
        {v : Server} {ch : Option (Option GoError)} {b d : Bool} (e : GoError)
        → Step
            (record {
              server = v;
              caller = shutting_down;
              serve_err_ch = ch;
              cancelled = b;
              closing = d;
            })
            (record {
              server = v;
              caller = returned (some e);
              serve_err_ch = ch;
              cancelled = b;
              closing = d;
            })
    receives_last :
        {v : Server} {b d : Bool} (r : Option GoError)
        → Step
            (record {
              server = v;
              caller = awaiting;
              serve_err_ch = some r;
              cancelled = b;
              closing = d;
            })
            (record {
              server = v;
              caller = returned r;
              serve_err_ch = none;
              cancelled = b;
              closing = d;
            })

  -- What may happen, and need not: the context ends, or `ListenAndServe` fails by itself.
  pub data Happens : State → State → Type 0 where
    cancels :
        {v : Server} {c : Caller} {ch : Option (Option GoError)} {d : Bool}
        → Happens
            (record { server = v; caller = c; serve_err_ch = ch; cancelled = false; closing = d })
            (record { server = v; caller = c; serve_err_ch = ch; cancelled = true; closing = d })
    listen_fails :
        {c : Caller} {ch : Option (Option GoError)} {b d : Bool} (e : GoError)
        → Happens
            (record {
              server = listening;
              caller = c;
              serve_err_ch = ch;
              cancelled = b;
              closing = d;
            })
            (record {
              server = sending e;
              caller = c;
              serve_err_ch = ch;
              cancelled = b;
              closing = d;
            })

  -- A run from a state, by its steps.
  pub data Runs : State → ℕ → State → Type 0 where
    stays : {s : State} → Runs s 0 s
    steps : {s t u : State} {n : ℕ} → Step s t → Runs t n u → Runs s (suc n) u
    events : {s t u : State} {n : ℕ} → Happens s t → Runs t n u → Runs s (suc n) u
