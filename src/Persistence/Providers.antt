-- ===== src/Persistence/Providers.antt =====
-- persistence/persistence.go: the services that the packages use, and their replacement. The
-- implementations are arguments: a service is of any type.
use meeseeks_box.Base.{◌≡◌, refl, Option, none, some}

abbrev pub or_keep : {A : Type 0} → Option A → Option A → Option A
or_keep none old = old
or_keep (some new) old = some new

or_keep-twice : {A : Type 0} (new old : Option A) → or_keep new (or_keep new old) ≡ or_keep new old
or_keep-twice none old = refl
or_keep-twice (some new) old = refl

module _ (Aliases Jobs Tokens Reader Writer : Type 0) where
  -- Providers; a nil interface is `none`.
  pub record Providers : Type 0 where
    pub aliases : Option Aliases
    pub jobs : Option Jobs
    pub api_tokens : Option Tokens
    pub log_reader : Option Reader
    pub log_writer : Option Writer

  -- Register, which looks at three of the proposed services
  unfoldable pub register : Providers → Providers → Providers
  register proposed providers = record providers {
    jobs = or_keep proposed.jobs providers.jobs;
    log_reader = or_keep proposed.log_reader providers.log_reader;
    log_writer = or_keep proposed.log_writer providers.log_writer;
  }

  -- What is proposed is what is there then, and a second time changes nothing; but proposed aliases
  -- and tokens are dropped.
  pub register-twice :
      (proposed providers : Providers)
      → (register proposed (register proposed providers) ≡ register proposed providers)
        × ((register proposed providers).aliases ≡ providers.aliases)
        × ((register proposed providers).api_tokens ≡ providers.api_tokens)
  unfolding register
  register-twice proposed providers =
      rw
        (
          or_keep-twice proposed.jobs providers.jobs,
          or_keep-twice proposed.log_reader providers.log_reader,
          or_keep-twice proposed.log_writer providers.log_writer,
        )
        (refl, refl, refl)
