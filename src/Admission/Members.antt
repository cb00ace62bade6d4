-- ===== src/Admission/Members.antt =====
-- The members that the map `identities` holds, by their ids.
use tracegarden.Prelude.{
  ◌≡◌, refl, ◌≢◌, Option, none, some, [], ◌∷◌, arith, if◌then◌else◌, All, Str, ◌===◌, ===_iff,
}
use tracegarden.Prelude.Dict.{Dict, get, set, values, KeysDistinct}
use tracegarden.Identity.{MemberRecord}
use tracegarden.Admission.{Known, AuthenticatedSession, find_member, refresh_sessions}

-- The member of an id as the map has it now.
unfoldable pub member_of : Str → Dict Known → Option MemberRecord
member_of id [] = none
member_of id ((k, e) ∷ m) =
    let rest = member_of id m in if e.member.id === id then some e.member else rest

-- No id stands twice.
abbrev pub IdsDistinct : Dict Known → Type 0
IdsDistinct [] = Unit
IdsDistinct ((k, e) ∷ m) = (member_of e.member.id m ≡ none) × IdsDistinct m

-- A member that stands in the list is found by its id.
member_of-get :
    (k : Str) (m : Dict Known) (e : Known)
    → IdsDistinct m
    → get k m ≡ some e
    → member_of e.member.id m ≢ none
unfolding member_of get
member_of-get k [] e d g = λ _. cc
member_of-get k ((j, w) ∷ m) e d g =
    ground (arith, member_of-get k m e, ===_iff w.member.id e.member.id)

-- Writing an identity whose member keeps its id changes that member and no other.
pub member_of-set :
    (k : Str) (e' : Known) (m : Dict Known) (id : Str) (e : Known)
    → get k m ≡ some e
    → e'.member.id ≡ e.member.id
    → IdsDistinct m
    → member_of id (set k e' m) ≡ (if e'.member.id === id then some e'.member else member_of id m)
unfolding member_of get set
member_of-set k e' [] id e g same d = cc
member_of-set k e' ((j, w) ∷ m) id e g same d = ground (
  arith,
  ===_iff j k,
  ===_iff e'.member.id id,
  ===_iff w.member.id id,
  member_of-get k m e,
  member_of-set k e' m id e,
)

-- A new identity adds its member.
pub member_of-set_new :
    (k : Str) (e' : Known) (m : Dict Known) (id : Str)
    → get k m ≡ none
    → member_of id (set k e' m) ≡ elim (member_of id m) [
      | none ↦ (if e'.member.id === id then some e'.member else none)
      | some x ↦ some x
    ]
unfolding member_of get set
member_of-set_new k e' [] id g = ground arith
member_of-set_new k e' ((j, w) ∷ m) id g = ground (arith, member_of-set_new k e' m id)

pub IdsDistinct-set :
    (k : Str) (e' : Known) (m : Dict Known) (e : Known)
    → get k m ≡ some e
    → e'.member.id ≡ e.member.id
    → IdsDistinct m
    → IdsDistinct (set k e' m)
unfolding get set member_of
IdsDistinct-set k e' [] e g same d = cc
IdsDistinct-set k e' ((j, w) ∷ m) e g same d = ground (
  arith,
  member_of-set k e' m w.member.id e,
  member_of-get k m e,
  ===_iff e'.member.id w.member.id,
  IdsDistinct-set k e' m e,
)

pub IdsDistinct-set_new :
    (k : Str) (e' : Known) (m : Dict Known)
    → get k m ≡ none
    → member_of e'.member.id m ≡ none
    → IdsDistinct m
    → IdsDistinct (set k e' m)
unfolding get set member_of
IdsDistinct-set_new k e' [] g fresh d = (refl, tt)
IdsDistinct-set_new k e' ((j, w) ∷ m) g fresh d = ground (
  arith,
  member_of-set_new k e' m w.member.id,
  ===_iff e'.member.id w.member.id,
  ===_iff w.member.id e'.member.id,
  IdsDistinct-set_new k e' m,
)

-- The entry that `find` returns is the one under its key.
pub get-find_member :
    (id : Str) (m : Dict Known) (k : Str) (e : Known)
    → KeysDistinct m
    → find_member id m ≡ some (k, e)
    → get k m ≡ some e
unfolding find_member get
get-find_member id [] k e d f = cc
get-find_member id ((j, w) ∷ m) k e d f =
    ground (arith, get-find_member id m k e, ===_iff w.member.id id, ===_iff j k, ===_iff k k)

pub find_member_id :
    (id : Str) (m : Dict Known) (k : Str) (e : Known)
    → find_member id m ≡ some (k, e)
    → e.member.id ≡ id
unfolding find_member
find_member_id id [] k e f = cc
find_member_id id ((j, w) ∷ m) k e f =
    ground (arith, find_member_id id m k e, ===_iff w.member.id id)

pub find_member-none : (id : Str) (m : Dict Known) → find_member id m ≡ none → member_of id m ≡ none
unfolding find_member member_of
find_member-none id [] f = refl
find_member-none id ((j, w) ∷ m) f = ground (arith, find_member-none id m)

-- A session carries the member as it is now.
abbrev pub AreCurrent : Dict Known → Dict AuthenticatedSession → Type 0
AreCurrent ids sessions = All (λ x. member_of x.member.id ids ≡ some x.member) (values sessions)

-- The loop over the sessions keeps them current when one member changes.
pub refresh_sessions-AreCurrent :
    (old new : Dict Known) (m : MemberRecord) (sessions : Dict AuthenticatedSession)
    → ((id : Str) → member_of id new ≡ (if m.id === id then some m else member_of id old))
    → AreCurrent old sessions
    → AreCurrent new (refresh_sessions m sessions)
unfolding refresh_sessions
refresh_sessions-AreCurrent old new m [] h c = tt
refresh_sessions-AreCurrent old new m ((t, x) ∷ sessions) h c = (
  ground (
    arith,
    h x.member.id,
    h m.id,
    ===_iff x.member.id m.id,
    ===_iff m.id x.member.id,
    ===_iff m.id m.id,
  ),
  refresh_sessions-AreCurrent old new m sessions h c.1,
)

-- Another member is added: the sessions stay current.
pub AreCurrent-set_new :
    (k : Str) (e : Known) (ids : Dict Known) (sessions : Dict AuthenticatedSession)
    → get k ids ≡ none
    → AreCurrent ids sessions
    → AreCurrent (set k e ids) sessions
AreCurrent-set_new k e ids [] g c = tt
AreCurrent-set_new k e ids ((t, x) ∷ sessions) g c = (
  ground (arith, member_of-set_new k e ids x.member.id),
  AreCurrent-set_new k e ids sessions g c.1,
)
