-- ===== src/Membership/Calls.antt =====
-- The calls that the events of internal/discovery/membership.go stand for.
use proglog.Base.{
  ◌≡◌, refl, ◌∙◌, sym, List, [], ◌∷◌, false, if◌then◌else◌, Bool-cases, inl, inr, All,
}
use proglog.Membership.{
  Member, Event, member_join, member_leave, member_failed, other, Handler, World, handle_join,
  handle_leave, is_local, join_members, leave_members, event_handler, go_on,
}
use Prim.Native.String.{String}

pub data Call : Type 0 where
  joins leaves : Member → Call

abbrev pub run_call : {S : Type 0} → Handler S → Call → World S → World S
run_call handler (joins m) w = handle_join handler m w
run_call handler (leaves m) w = handle_leave handler m w

abbrev pub run : {S : Type 0} → Handler S → List Call → World S → World S
run handler [] w = w
run handler (c ∷ cs) w = run handler cs (run_call handler c w)

-- The members of a join, less the local one.
abbrev pub joining : String → List Member → List Call → List Call
joining local [] cs = cs
joining local (m ∷ ms) cs =
    let rest = joining local ms cs in if is_local local m then rest else joins m ∷ rest

-- The members of a leave before the local one, and `cs` if the local one is not among them.
abbrev pub leaving : String → List Member → List Call → List Call
leaving local [] cs = cs
leaving local (m ∷ ms) cs =
    let rest = leaving local ms cs in if is_local local m then [] else leaves m ∷ rest

-- The calls of a sequence of events.
abbrev pub calls : String → List Event → List Call
calls local [] = []
calls local (member_join ms ∷ es) = joining local ms (calls local es)
calls local (member_leave ms ∷ es) = leaving local ms (calls local es)
calls local (member_failed ms ∷ es) = leaving local ms (calls local es)
calls local (other ∷ es) = calls local es

abbrev pub subject : Call → Member
subject (joins m) = m
subject (leaves m) = m

abbrev pub IsRemote : String → Call → Type 0
IsRemote local c = is_local local (subject c) ≡ false

joining-IsRemote :
    (local : String) (ms : List Member) (cs : List Call)
    → All (IsRemote local) cs
    → All (IsRemote local) (joining local ms cs)
joining-IsRemote local [] cs h = h
joining-IsRemote local (m ∷ ms) cs h = elim (Bool-cases (is_local local m)) [
  | inl e ↦ rw e (joining-IsRemote local ms cs h)
  | inr e ↦ rw e (e, joining-IsRemote local ms cs h)
]

leaving-IsRemote :
    (local : String) (ms : List Member) (cs : List Call)
    → All (IsRemote local) cs
    → All (IsRemote local) (leaving local ms cs)
leaving-IsRemote local [] cs h = h
leaving-IsRemote local (m ∷ ms) cs h = elim (Bool-cases (is_local local m)) [
  | inl e ↦ rw e tt
  | inr e ↦ rw e (e, leaving-IsRemote local ms cs h)
]

calls-IsRemote : (local : String) (es : List Event) → All (IsRemote local) (calls local es)
calls-IsRemote local [] = tt
calls-IsRemote local (member_join ms ∷ es) = joining-IsRemote local ms _ (calls-IsRemote local es)
calls-IsRemote local (member_leave ms ∷ es) = leaving-IsRemote local ms _ (calls-IsRemote local es)
calls-IsRemote local (member_failed ms ∷ es) = leaving-IsRemote local ms _ (calls-IsRemote local es)
calls-IsRemote local (other ∷ es) = calls-IsRemote local es

module _ (S : Type 0) (handler : Handler S) (local : String) where
  join_members-run :
      (ms : List Member) (cs : List Call) (w : World S)
      → run handler (joining local ms cs) w ≡ run handler cs (join_members handler local ms w)
  unfolding join_members
  join_members-run [] cs w = refl
  join_members-run (m ∷ ms) cs w = elim (Bool-cases (is_local local m)) [
    | inl e ↦ rw e (join_members-run ms cs w)
    | inr e ↦ rw e (join_members-run ms cs (handle_join handler m w))
  ]

  leave_members-run :
      (ms : List Member) (es : List Event) (w : World S)
      → ((v : World S) → event_handler handler local es v ≡ run handler (calls local es) v)
      → go_on (event_handler handler local es) (leave_members handler local ms w)
        ≡ run handler (leaving local ms (calls local es)) w
  unfolding leave_members
  leave_members-run [] es w h = h w
  leave_members-run (m ∷ ms) es w h = elim (Bool-cases (is_local local m)) [
    | inl e ↦ rw e refl
    | inr e ↦ rw e (leave_members-run ms es (handle_leave handler m w) h)
  ]

  event_handler-run :
      (es : List Event) (w : World S)
      → event_handler handler local es w ≡ run handler (calls local es) w
  unfolding event_handler
  event_handler-run [] w = refl
  event_handler-run (member_join ms ∷ es) w =
      event_handler-run es (join_members handler local ms w)
      ∙ sym (join_members-run ms (calls local es) w)
  event_handler-run (member_leave ms ∷ es) w = leave_members-run ms es w (event_handler-run es)
  event_handler-run (member_failed ms ∷ es) w = leave_members-run ms es w (event_handler-run es)
  event_handler-run (other ∷ es) w = event_handler-run es w

  -- eventHandler calls the handler once for each remote member that joins, leaves or fails, in the
  -- order of the events, until the local member leaves; and never for the local member.
  pub event_handler-calls :
      (es : List Event) (w : World S)
      → (event_handler handler local es w ≡ run handler (calls local es) w)
        × All (IsRemote local) (calls local es)
  event_handler-calls es w = (event_handler-run es w, calls-IsRemote local es)
