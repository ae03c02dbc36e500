-- ===== src/Tests/Setup.antt =====
-- A connection with a key, and a table of handlers.
use sepp_py.Client.Connect.Key.{IsHeaderChar, auth_metadata_for_iff}
use sepp_py.Types.Trace.{codes}
use sepp_py.Common.{
  IsOk, ◌↔◌, All, Option, ℕ, false, List, [], ◌∷◌, none, some, ok, err, ◌⊎◌, ◌≡◌, ◌≢◌, refl,
}
use sepp_py.Client.Connect.{
  strip_prefix, normalize_target, has_line_break, is_ascii, auth_metadata_for, ConnectArgs, Plan,
  plan,
}
use sepp_py.Client.Connect.Session.{
  Channel, opened, closed, ready, timed_out, interrupted, await_ready, make_client, connect_client,
  connect_client-cases,
}
use sepp_py.Types.Time.{seconds}
use sepp_py.Errors.Exceptions.{ClientError, sepp, client_error, base_exception}
use sepp_py.Tests.Reference.{scripted}
use sepp_py.Worker.Handlers.{
  Handlers, no_handlers, handle, handler, replace_handler, remove_handler, catch_all, or_else,
  handler_for,
}
use sepp_py.Worker.Handlers.History.{
  Call, handles, decorates, replaces, removes, catches, call, history, meanings, nothing_yet,
  handler_for-history,
}

auth_metadata_for_iff_example :
    IsOk (auth_metadata_for (some "key-1")) ↔ All IsHeaderChar (codes "key-1")
auth_metadata_for_iff_example = auth_metadata_for_iff "key-1"

abbrev args : ConnectArgs
args = record {
  addr = "http://queue:7070";
  api_key = some "key-1";
  tls = false;
  tls_ca_cert = none;
  tls_domain = none;
  credentials = none;
  max_receive_message_bytes = none;
}

-- A channel that is not ready in time.
connect_client-cases_example :
    ((p : Plan) × (plan args ≡ ok p)
      × (timed_out ≡ ready)
      × (connect_client scripted 2 args none (seconds 30) timed_out none
          ≡ (ok (make_client scripted 2 none p.auth_metadata (seconds 30)), some opened)))
    ⊎ ((e : ClientError) × (made : Option Channel) × (connect_client scripted 2 args none
            (seconds 30)
            timed_out
            none
          ≡ (err (sepp (client_error e)), made))
        × (((plan args ≡ err e) × (made ≡ none)) ⊎ ((timed_out ≢ ready) × (made ≡ some closed))))
    ⊎ ((timed_out ≡ interrupted)
        × (connect_client scripted 2 args none (seconds 30) timed_out none
            ≡ (err base_exception, some opened)))
connect_client-cases_example = connect_client-cases scripted 2 args none (seconds 30) timed_out

-- A cancelled wait leaves the channel open.
abandoned :
    connect_client scripted 2 args none (seconds 30) interrupted none
    ≡ (err base_exception, some opened)
unfolding connect_client plan auth_metadata_for await_ready has_line_break is_ascii normalize_target
    strip_prefix make_client
abandoned = refl

-- Handlers are numbers here.
abbrev table : Handlers ℕ
table = record { table = ("send_welcome", 1) ∷ []; catch_all_handler = some 0 }

handled : handle "send_welcome" 1 (record no_handlers { catch_all_handler = some 0 }) ≡ ok table
unfolding handle
handled = refl

-- Handlers that are registered, refused, replaced and removed.
abbrev calls : List (Call ℕ)
calls =
    handles "send_welcome" 1
    ∷ decorates "send_welcome" 2
    ∷ replaces "send_bill" 3
    ∷ removes "send_welcome"
    ∷ catches 4
    ∷ []

handler_for-history_example :
    handler_for "send_welcome" (history calls no_handlers)
    ≡ or_else
        ((meanings calls nothing_yet).specific "send_welcome")
        (meanings calls nothing_yet).fallback
handler_for-history_example = handler_for-history calls "send_welcome"

caught : handler_for "send_welcome" (history calls no_handlers) ≡ some 4
unfolding handler_for history call handle handler replace_handler remove_handler catch_all
caught = refl
