-- ===== src/Handshake/Outcomes.antt =====
-- What each outcome of a handshake means (packages/bridge-daemon/src/session/handshake-processor.ts).
use junon.Shared.{
  String, ◌≡◌, true, Option, none, some, List, [], ◌∷◌, arith, contains, inl, inr, ◌||◌, ◌==◌,
}
use junon.Shared.Texts.{after_prefix}
use junon.Handshake.Versions.{select_version, supported_versions, ok, Result-cases}
use junon.Handshake.Order.{at_most, ascending}
use junon.Handshake.Selection.{
  Highest, NoneInRange, select_version-Highest, select_version-none, member-at_most,
  supported_versions-ascending,
}
use junon.Handshake.Processor.{
  Crypto, authentication_tokens_equal, Request, valid, AuthenticatedSession, accepted,
  unsupported_protocol_version, Processor, new_processor, process, first, last, negotiate, settle,
  unsupported,
}

new_processor-ascending :
    (token : String) (versions : List String) (p : Processor)
    → new_processor token versions ≡ ok p
    → (ascending p.versions ≡ true) × ((w : String) → contains w p.versions ≡ contains w versions)
unfolding new_processor
new_processor-ascending token versions p made = elim (Result-cases (supported_versions versions)) [
  | inl (x, stop) ↦ absurd (ground (arith, stop))
  | inr (sorted, done) ↦
      let same : p.versions ≡ sorted = ground (arith, done) in
      rw same (supported_versions-ascending versions sorted done)
]

-- What an accepted handshake has checked.
pub record Accepted (crypto : Crypto) (p : Processor) (session_id now : String) (request : Request)
    (session : AuthenticatedSession) : Type 0 where
  pub authenticated : authentication_tokens_equal crypto p.expected_token request.token ≡ true
  pub version : Highest request.minimum request.maximum p.versions session.protocol_version
  pub well_named : after_prefix "session_" session.session_id ≡ true
  pub same_role : session.role ≡ request.role
  pub same_client : session.client_name ≡ request.client_name
  pub connected : session.connected_at ≡ now

-- A handshake that a processor of the constructor accepts has a token whose digest compares equal
-- to that of the expected one, gets the highest supported version of the range that it asks for,
-- and a session with a well-formed ID, with the role and the client's name that it gives, from
-- this time on.
pub process-Accepted :
    (crypto : Crypto) (token : String) (versions : List String) (p : Processor)
    (session_id now : String) (id : Option String) (request : Request) (response : String)
    (session : AuthenticatedSession)
    → new_processor token versions ≡ ok p
    → process crypto p session_id now id (valid request) ≡ ok (accepted response session)
    → Accepted crypto p session_id now request session
unfolding process negotiate settle unsupported
process-Accepted crypto token versions p session_id now id request response session made e =
    let up = new_processor-ascending token versions p made in
    elim (Result-cases (select_version request.minimum request.maximum p.versions)) [
      | inl (x, stop) ↦ absurd (ground (arith, stop))
      | inr (none, chosen) ↦ absurd (ground (arith, chosen))
      | inr (some v, chosen) ↦
          let same : session.protocol_version ≡ v = ground (arith, chosen) in
          record {
            authenticated = ground arith;
            version =
                rw same
                  (select_version-Highest request.minimum request.maximum p.versions v up.0 chosen);
            well_named = ground (arith, chosen);
            same_role = ground (arith, chosen);
            same_client = ground (arith, chosen);
            connected = ground (arith, chosen);
          }
    ]

first-lowest :
    (vs : List String) (low w : String)
    → ascending vs ≡ true
    → first vs ≡ some low
    → contains w vs ≡ true
    → (low == w || at_most low w) ≡ true
unfolding first ascending contains
first-lowest [] low w up e member = ground arith
first-lowest (v ∷ vs) low w up e member = ground (arith, member-at_most w v vs)

last-contains : (vs : List String) (high : String) → last vs ≡ some high → contains high vs ≡ true
unfolding last contains
last-contains [] high e = ground arith
last-contains (v ∷ []) high e = ground arith
last-contains (v ∷ w ∷ vs) high e = ground (arith, last-contains (w ∷ vs) high e)

last-highest :
    (vs : List String) (high w : String)
    → ascending vs ≡ true
    → last vs ≡ some high
    → contains w vs ≡ true
    → (w == high || at_most w high) ≡ true
unfolding last ascending contains
last-highest [] high w up e member = ground arith
last-highest (v ∷ []) high w up e member = ground arith
last-highest (v ∷ u ∷ us) high w up e member = ground (
  arith,
  last-highest (u ∷ us) high w,
  last-contains (u ∷ us) high e,
  member-at_most high v (u ∷ us),
)

-- What a refusal of the range has checked and reports.
pub record Unsupported (crypto : Crypto) (p : Processor) (request : Request) (low high : String)
    : Type 0 where
  pub authenticated : authentication_tokens_equal crypto p.expected_token request.token ≡ true
  pub none_serves : NoneInRange request.minimum request.maximum p.versions
  pub lowest : (w : String) → contains w p.versions ≡ true → (low == w || at_most low w) ≡ true
  pub highest : (w : String) → contains w p.versions ≡ true → (w == high || at_most w high) ≡ true

-- A processor of the constructor tells the supported range only to who has the expected token,
-- only if no supported version is in the range that it asks for; and the ends that it tells are
-- below and above every other supported version.
pub process-Unsupported :
    (crypto : Crypto) (token : String) (versions : List String) (p : Processor)
    (session_id now : String) (id : Option String) (request : Request) (response low high : String)
    → new_processor token versions ≡ ok p
    → process crypto p session_id now id (valid request)
      ≡ ok (unsupported_protocol_version response low high)
    → Unsupported crypto p request low high
unfolding process negotiate settle unsupported
process-Unsupported crypto token versions p session_id now id request response low high made e =
    let up = new_processor-ascending token versions p made in
    elim (Result-cases (select_version request.minimum request.maximum p.versions)) [
      | inl (x, stop) ↦ absurd (ground (arith, stop))
      | inr (some v, chosen) ↦ absurd (ground (arith, chosen))
      | inr (none, chosen) ↦
          let starts : first p.versions ≡ some low = ground (arith, chosen) in
          let ends : last p.versions ≡ some high = ground (arith, chosen) in
          record {
            authenticated = ground arith;
            none_serves = select_version-none request.minimum request.maximum p.versions chosen;
            lowest = λ w. first-lowest p.versions low w up.0 starts;
            highest = λ w. last-highest p.versions high w up.0 ends;
          }
    ]
