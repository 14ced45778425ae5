-- ===== src/Config/Load/Required.antt =====
-- When the configuration is accepted.
use mathlib.Core.List.{reverse, reverse-cons, reverse-reverse, reverse-append}
use audiax_backend.Common.{
  ◌≡◌, ◌≢◌, ◌↔◌, refl, sym, ap, ◌∙◌, inl, inr, Bool, true, false, all, [], ◌∷◌, ◌++◌, nat_eq, arith,
  Bool-cases, if◌then◌else◌,
}
use audiax_backend.Common.Text.{Text, text, is_empty}
use audiax_backend.Common.Text.Trim.{all-reverse}
use audiax_backend.Errors.{Error}
use audiax_backend.Exec.{Result, ok, err}
use audiax_backend.Config.Load.{
  Parsers, Config, without_slashes, trim_right_slashes, read_config, load,
}

-- only slashes, which is what TrimRight takes away
abbrev pub all_slashes : Text → Bool
all_slashes = all λ c. nat_eq c b'/'

-- The five variables that have no default.
pub record IsConfigured (getenv : Text → Text) : Type 0 where
  pub database : is_empty (getenv (text "DATABASE_URL")) ≡ false
  pub redis : is_empty (getenv (text "REDIS_URL")) ≡ false
  pub ai_service : all_slashes (getenv (text "AI_SERVICE_URL")) ≡ false
  pub supabase : all_slashes (getenv (text "SUPABASE_URL")) ≡ false
  pub supabase_key : is_empty (getenv (text "SUPABASE_SERVICE_KEY")) ≡ false

without_slashes-empty : (s : Text) → is_empty (without_slashes s) ≡ all_slashes s
without_slashes-empty [] = refl
without_slashes-empty (c ∷ s) = ground (arith, without_slashes-empty s)

reverse-empty : (s : Text) → is_empty (reverse s) ≡ is_empty s
reverse-empty [] = refl
reverse-empty (c ∷ s) = rw (reverse-cons) (last_of (reverse s))
  where
    last_of : (t : Text) → is_empty (t ++ (c ∷ [])) ≡ false
    last_of [] = refl
    last_of (d ∷ t) = refl

trim_right_slashes-empty : (s : Text) → is_empty (trim_right_slashes s) ≡ all_slashes s
unfolding trim_right_slashes
trim_right_slashes-empty s =
    reverse-empty (without_slashes (reverse s))
    ∙ without_slashes-empty (reverse s)
    ∙ all-reverse (λ c. nat_eq c b'/') s

without_slashes-head : (s t : Text) → without_slashes s ≢ (b'/' ∷ t)
without_slashes-head [] t h = cc
without_slashes-head (c ∷ s) t h = elim (Bool-cases (nat_eq c b'/')) [
  | inl slash ↦ without_slashes-head s t (ground arith)
  | inr other ↦
      let same : c ∷ s ≡ b'/' ∷ t = rw other at h in let slash : c ≡ b'/' = cc in ground arith
]

pub no_trailing_slash : (s front : Text) → trim_right_slashes s ≢ front ++ text "/"
unfolding trim_right_slashes
no_trailing_slash s front h = without_slashes-head (reverse s) (reverse front) (
    sym (reverse-reverse (without_slashes (reverse s)))
    ∙ ap reverse h
    ∙ reverse-append front (text "/"))

passed :
    {A : Type 0} (b : Bool) (e : Error) (r : Result A) (a : A)
    → (if b then err e else r) ≡ ok a
    → (b ≡ false) × (r ≡ ok a)
passed true e r a h = cc
passed false e r a h = (refl, h)

module _ (parsers : Parsers) (getenv : Text → Text) where
  load_sound :
      (cfg : Config parsers.Level)
      → load parsers getenv ≡ ok cfg
      → (cfg ≡ read_config parsers getenv) × IsConfigured getenv
  unfolding load read_config
  load_sound cfg h =
      let (database, h₁) = passed _ _ _ cfg h in
      let (redis, h₂) = passed _ _ _ cfg h₁ in
      let (ai, h₃) = passed _ _ _ cfg h₂ in
      let (supabase, h₄) = passed _ _ _ cfg h₃ in
      let (key, h₅) = passed _ _ _ cfg h₄ in
      (
        same_config (read_config parsers getenv) cfg h₅,
        record {
          database = database;
          redis = redis;
          ai_service = sym (trim_right_slashes-empty (getenv (text "AI_SERVICE_URL"))) ∙ ai;
          supabase = sym (trim_right_slashes-empty (getenv (text "SUPABASE_URL"))) ∙ supabase;
          supabase_key = key;
        },
      )
    where
      same_config :
          (a b : Config parsers.Level) → Path (Result (Config parsers.Level)) (ok a) (ok b) → b ≡ a
      same_config a b h = cc

  load_complete : IsConfigured getenv → load parsers getenv ≡ ok (read_config parsers getenv)
  unfolding load read_config
  load_complete i =
      rw
        (
          i.database,
          i.redis,
          trim_right_slashes-empty (getenv (text "AI_SERVICE_URL")),
          i.ai_service,
          trim_right_slashes-empty (getenv (text "SUPABASE_URL")),
          i.supabase,
          i.supabase_key,
        )
        refl

  urls :
      (front : Text)
      → ((read_config parsers getenv).ai_service_url ≢ front ++ text "/")
        × ((read_config parsers getenv).ollama_url ≢ front ++ text "/")
        × ((read_config parsers getenv).supabase_url ≢ front ++ text "/")
  unfolding read_config
  urls front = (
    no_trailing_slash (getenv (text "AI_SERVICE_URL")) front,
    no_trailing_slash _ front,
    no_trailing_slash (getenv (text "SUPABASE_URL")) front,
  )

  -- Load accepts the environment exactly when the database, Redis and the service key are given and the
  -- two required addresses hold more than slashes, and what it then returns is what was read, so that a
  -- number, duration or level that does not parse does not make it fail. No address of a service in
  -- what it returns ends with a slash.
  pub load_iff :
      (cfg : Config parsers.Level)
      → ((load parsers getenv ≡ ok cfg)
          ↔ ((cfg ≡ read_config parsers getenv) × IsConfigured getenv))
        × (load parsers getenv ≡ ok cfg
            → (front : Text)
            → (cfg.ai_service_url ≢ front ++ text "/")
              × (cfg.ollama_url ≢ front ++ text "/")
              × (cfg.supabase_url ≢ front ++ text "/"))
  load_iff cfg = (
    (load_sound cfg, λ h. load_complete h.1 ∙ ap (λ c. ok c) (sym h.0)),
    λ h front. rw (load_sound cfg h).0 (urls front),
  )
