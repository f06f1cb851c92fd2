-- ===== src/Hooks/Log.antt =====
-- What the session is for the hooks of .wolf/hooks, with nothing of how it is kept: how often each
-- file was read, and how many writes there were. The hooks are events on it.
pub mod Reads
pub mod Ends
pub mod Refines
pub mod Traces
use efipix.Prelude.{
  ℕ, ◌+◌, Option, none, some, List, [], ◌≡◌, refl, sym, ap, ◌∙◌, length, if◌then◌else◌, subst,
}
use efipix.Text.{Text, equal}
use efipix.Object.{Object, find_own}
use efipix.World.{Session, World, ReadInfo, WriteInfo, or_default}
use efipix.Hooks.Common.{write_session, saved_session}
use efipix.Hooks.Counting.{count_in}

pub record Log : Type 0 where
  pub reads : Text → ℕ
  pub writes : ℕ

pub data Event : Type 0 where
  idle wrote began : Event
  one_read : Text → Event

-- the events as operations
abbrev pub apply : Event → Log → Log
apply idle l = l
apply wrote l = record l { writes = l.writes + 1 }
apply began l = record { reads = λ j. 0; writes = 0 }
apply (one_read f) l = record l { reads = λ j. l.reads j + (if equal f j then 1 else 0) }

abbrev pub Agree : Log → Log → Type 0
Agree a b = ((j : Text) → a.reads j ≡ b.reads j) × (a.writes ≡ b.writes)

-- the log of a session
abbrev pub log_with : Object ReadInfo → List WriteInfo → Log
log_with reads writes = record { reads = λ j. count_in (find_own j reads); writes = length writes }

abbrev pub log_in : Option Session → Log
log_in none = record { reads = λ j. 0; writes = 0 }
log_in (some s) = log_with (or_default [] s.files_read) (or_default [] s.files_written)

abbrev pub log_of : World → Log
log_of w = log_in w.session

-- The new state's log is the old one's after the event.
abbrev pub Follows : Event → Log → World → Type 0
Follows e l w = Agree (log_of w) (apply e l)

pub log_in_lem :
    (s : Session) (reads : Object ReadInfo) (writes : List WriteInfo)
    → s.files_read ≡ some reads
    → s.files_written ≡ some writes
    → log_in (some s) ≡ log_with reads writes
log_in_lem s reads writes e f =
    ap (λ o. log_with (or_default [] o) (or_default [] s.files_written)) e
    ∙ ap (λ o. log_with reads (or_default [] o)) f

pub log_of-write_session : (s : Session) (w : World) → log_of (write_session s w) ≡ log_in (some s)
unfolding saved_session
log_of-write_session s w = refl

-- a session that is saved is what the log then tells
pub saved-Follows :
    (e : Event) (l : Log) (s : Session) (w : World) (reads : Object ReadInfo)
    (writes : List WriteInfo)
    → s.files_read ≡ some reads
    → s.files_written ≡ some writes
    → Agree (log_with reads writes) (apply e l)
    → Follows e l (write_session s w)
saved-Follows e l s w reads writes f g a =
    subst (λ m. Agree m (apply e l))
      (sym (log_of-write_session s w ∙ log_in_lem s reads writes f g)) a

pub same-Follows : (l : Log) (w : World) → log_of w ≡ l → Follows idle l w
same-Follows l w e = subst (λ m. Agree m l) (sym e) ((λ j. refl), refl)
