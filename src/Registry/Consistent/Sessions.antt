-- ===== src/Registry/Consistent/Sessions.antt =====
-- The opening, the touching and the closing of a session in
-- packages/bridge-daemon/src/session/session-registry.ts keep the maps consistent.
use junon.Shared.{String, ◌≡◌, none, some, arith, ◌==◌, if◌then◌else◌, Option-cases, ◌⊎◌, inl, inr}
use junon.Shared.Maps.{get, set, delete, get-set, get-delete}
use junon.Registry.Data.{Connection, SessionRecord, Registry, ok}
use junon.Registry.Ops.{open_session, touch, remove_adapter, close_session}
use junon.Registry.Consistent.{IsWired, IsConsistent, role_of}
use junon.Registry.Consistent.Writes.{remove_adapter-IsWired}

-- A write of a session that is new, or whose role it keeps.
set_session-IsConsistent :
    (k : String) (s : SessionRecord) (r : Registry)
    → (get k r.sessions ≡ none) ⊎ (role_of (get k r.sessions) ≡ some s.snapshot.role)
    → IsConsistent r
    → IsConsistent (record r { sessions = set k s r.sessions })
set_session-IsConsistent k s r kept c =
    let x = c.wired in
    record {
      wired = record {
        keyed = x.keyed;
        distinct = x.distinct;
        based = x.based;
        described = x.described;
        owned = x.owned;
        held = x.held;
      };
      serving = λ j a e. ground (arith, get-set k a.session_id s r.sessions, c.serving j a);
    }

pub open_session-IsConsistent :
    (conn : Connection) (r t : Registry)
    → open_session conn r ≡ ok t
    → IsConsistent r
    → IsConsistent t
unfolding open_session
open_session-IsConsistent conn r t e c =
    let id = conn.session.session_id in
    let s : SessionRecord = record { connection = conn; snapshot = conn.session } in
    let new : get id r.sessions ≡ none = ground arith in
    let opened : t ≡ record r { sessions = set id s r.sessions } = ground arith in
    rw opened (set_session-IsConsistent id s r (inl new) c)

pub touch-IsConsistent :
    (now k : String) (r t : Registry) → touch now k r ≡ ok t → IsConsistent r → IsConsistent t
unfolding touch
touch-IsConsistent now k r t e c = elim (Option-cases (get k r.sessions)) [
  | inl absent ↦ ground (arith, absent)
  | inr (s, found) ↦
      let s' : SessionRecord = record s {
        snapshot = record s.snapshot { last_activity_at = now };
      } in
      let touched : t ≡ record r { sessions = set k s' r.sessions } = ground (arith, found) in
      rw touched (set_session-IsConsistent k s' r (inr (ground (arith, found))) c)
]

-- The adapters that a removal leaves are those that were there, but the one removed.
remove_adapter-adapters :
    (k j : String) (r : Registry)
    → get j (remove_adapter k r).1.adapters ≡ (if k == j then none else get j r.adapters)
unfolding remove_adapter
remove_adapter-adapters k j r = ground (arith, get-delete k j r.adapters)

remove_adapter-sessions : (k : String) (r : Registry) → (remove_adapter k r).1.sessions ≡ r.sessions
unfolding remove_adapter
remove_adapter-sessions k r = ground arith

pub remove_adapter-IsConsistent :
    (k : String) (r : Registry) → IsConsistent r → IsConsistent (remove_adapter k r).1
remove_adapter-IsConsistent k r c = record {
  wired = remove_adapter-IsWired k r c.wired;
  serving = λ j a e.
      ground (arith, remove_adapter-adapters k j r, remove_adapter-sessions k r, c.serving j a);
}

pub close_session-IsConsistent :
    (k : String) (r : Registry) → IsConsistent r → IsConsistent (close_session k r).1
unfolding close_session
close_session-IsConsistent k r c =
    let x = c.wired in
    let r' : Registry = record r { sessions = delete k r.sessions } in
    let w' : IsWired r' = record {
      keyed = x.keyed;
      distinct = x.distinct;
      based = x.based;
      described = x.described;
      owned = x.owned;
      held = x.held;
    } in
    let at = λ (j : String). get-delete k j r.sessions in
    elim (Option-cases (get k r.sessions)) [
      | inl absent ↦ rw (absent, close_session) c
      | inr (s, found) ↦ elim (Option-cases (get k r.adapter_by_session)) [
        | inl free ↦
            rw (found, free, close_session)
              (record {
                wired = w';
                serving = λ j a e. ground (arith, at a.session_id, c.serving j a, x.owned j a);
              })
        | inr (own, holds) ↦
            rw (found, holds, close_session)
              (record {
                wired = remove_adapter-IsWired own r' w';
                serving = λ j a e. ground (
                  arith,
                  at a.session_id,
                  remove_adapter-adapters own j r',
                  remove_adapter-sessions own r',
                  c.serving j a,
                  x.owned j a,
                );
              })
      ]
    ]
