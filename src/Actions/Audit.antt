-- ===== src/Actions/Audit.antt =====
-- The audit ring (`trfx_record_action_audit` and its readers, src/trfx_actions.c). The static variables
-- are a record; each function holds the lock for its whole access of them.
pub mod Recent
use trafix.Prelude.Int.{ℤ, pos}
use trafix.Prelude.{
  ℕ, ◌+◌, ◌-◌, ◌%◌, Bool, List, [], ◌∷◌, Option, none, some, ltb, get_elem?, set, replicate,
  if◌then◌else◌,
}
use trafix.Cstr.{Text, codes, clip}
use trafix.Actions.Names.{result_status_name}
use trafix.Actions.Requests.{init_request, zero_request}
use trafix.Actions.Types.{Request, ResultStatus, Result, AuditEntry, text_size}

abbrev pub audit_max : ℕ
audit_max = 8

pub record Audit : Type 0 where
  pub entries : List AuditEntry
  pub count : ℕ
  pub next : ℕ

abbrev zero_entry : AuditEntry
zero_entry = record { when = pos 0; request = zero_request; status = ResultStatus.ok; message = [] }

unfoldable pub empty : Audit
empty = record { entries = replicate audit_max zero_entry; count = 0; next = 0 }

-- The message of an entry: that of the result, or else the name of its status.
abbrev pub message_or_name : ResultStatus → Text → Text
message_or_name status [] = clip text_size (result_status_name status)
message_or_name status (c ∷ s) = clip text_size (c ∷ s)

abbrev request_or_init : Option Request → Request
request_or_init none = init_request
request_or_init (some request) = request

unfoldable pub entry_of : ℤ → Option Request → Option Result → AuditEntry
unfolding init_request result_status_name
entry_of now request (some result) = record {
  when = now;
  request = request_or_init request;
  status = result.status;
  message = message_or_name result.status result.message;
}
entry_of now request none = record {
  when = now;
  request = request_or_init request;
  status = ResultStatus.invalid;
  message = codes "no result available";
}

-- What is done under the lock.
unfoldable pub append : Audit → AuditEntry → Audit
append a entry = record {
  entries = set a.entries a.next entry;
  next = (a.next + 1) % audit_max;
  count = if ltb a.count audit_max then a.count + 1 else a.count;
}

unfoldable pub record_action_audit : Audit → ℤ → Option Request → Option Result → Audit
unfolding append
record_action_audit a now request result = append a (entry_of now request result)

unfoldable pub audit_count : Audit → ℕ
audit_count a = a.count

unfoldable pub audit_at : Audit → ℕ → Option AuditEntry
audit_at a index =
    if ltb index a.count
    then get_elem? a.entries ((a.next + audit_max - 1 - index) % audit_max)
    else none
