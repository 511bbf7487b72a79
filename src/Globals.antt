-- ===== src/Globals.antt =====
-- src/pop3sf/GlobalResources.py: the class attributes that all threads share, over any logger and any
-- ensurer.
use pop3sf.Prelude.{◌≡◌, refl, Option, none, some, List, [], ◌∷◌}
use pop3sf.Adapter.{Action, ok, raised}
use pop3sf.Adapters.{assertion_error}

pub record GlobalResources (L E : Type 0) : Type 0 where
  pub logger : Option L
  pub exclusivity_ensurer : Option E

-- the values in the class
abbrev pub no_resources : {L E : Type 0} → GlobalResources L E
no_resources = record { logger = none; exclusivity_ensurer = none }

-- `assert value is not None; return value`
not_none : {S A : Type 0} → Option A → Action S A
not_none none s = (raised assertion_error, s)
not_none (some a) s = (ok a, s)

module _ {L E : Type 0} where
  -- the two assertions, and behind them the two assignments
  set_if_none : L → E → Option L → Option E → Action (GlobalResources L E) Unit
  set_if_none logger ensurer (some l) e s = (raised assertion_error, s)
  set_if_none logger ensurer none (some e) s = (raised assertion_error, s)
  set_if_none logger ensurer none none s =
      (ok tt, record { logger = some logger; exclusivity_ensurer = some ensurer })

  unfoldable pub set_resources : L → E → Action (GlobalResources L E) Unit
  unfolding set_if_none
  set_resources logger ensurer s = set_if_none logger ensurer s.logger s.exclusivity_ensurer s

  unfoldable pub get_logger : Action (GlobalResources L E) L
  unfolding not_none
  get_logger s = not_none s.logger s

  unfoldable pub get_exclusivity_ensurer : Action (GlobalResources L E) E
  unfolding not_none
  get_exclusivity_ensurer s = not_none s.exclusivity_ensurer s

-- A call of one of the class methods, by whatever thread; what it gives is dropped.
pub data Access (L E : Type 0) : Type 0 where
  setting : L → E → Access L E
  getting_logger getting_exclusivity_ensurer : Access L E

module _ {L E : Type 0} where
  unfoldable pub access : Access L E → GlobalResources L E → GlobalResources L E
  access (setting logger ensurer) s = (set_resources logger ensurer s).1
  access getting_logger s = (get_logger s).1
  access getting_exclusivity_ensurer s = (get_exclusivity_ensurer s).1

  unfoldable pub access_all : List (Access L E) → GlobalResources L E → GlobalResources L E
  unfolding access
  access_all [] s = s
  access_all (a ∷ accesses) s = access_all accesses (access a s)

  -- The resources as the first call of `set_resources` leaves them.
  abbrev set_once : L → E → GlobalResources L E
  set_once l e = record { logger = some l; exclusivity_ensurer = some e }

  access-fixed : (l : L) (e : E) (a : Access L E) → access a (set_once l e) ≡ set_once l e
  unfolding access set_resources get_logger get_exclusivity_ensurer
  access-fixed l e (setting logger ensurer) = refl
  access-fixed l e getting_logger = refl
  access-fixed l e getting_exclusivity_ensurer = refl

  access_all-fixed :
      (l : L) (e : E) (accesses : List (Access L E))
      → access_all accesses (set_once l e) ≡ set_once l e
  unfolding access_all
  access_all-fixed l e [] = refl
  access_all-fixed l e (a ∷ accesses) = rw (access-fixed l e a) (access_all-fixed l e accesses)

  -- Once the resources are set, then whatever calls of the class's methods follow, with whatever
  -- arguments, the getters give what was set first, and setting is refused by an assertion.
  pub set_resources-once :
      (l l' : L) (e e' : E) (accesses : List (Access L E))
      → let s = access_all accesses (set_resources l e no_resources).1 in
        (get_logger s ≡ (ok l, s))
        × (get_exclusivity_ensurer s ≡ (ok e, s))
        × (set_resources l' e' s ≡ (raised assertion_error, s))
  unfolding set_resources get_logger get_exclusivity_ensurer
  set_resources-once l l' e e' accesses = rw (access_all-fixed l e accesses) (refl, refl, refl)
