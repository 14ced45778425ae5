-- ===== src/Usecase/Advisory/Keywords.antt =====
-- Which messages hold a danger keyword.
use audiax_backend.Common.{
  ◌<◌, ◌≡◌, refl, ap, ◌∙◌, ◌↔◌, inl, inr, true, List, [], ◌∷◌, ◌++◌, map, arith, any, In, All,
  Bool-cases,
}
use audiax_backend.Common.Text.{Text, contains, ascii_lower, Unicode, to_lower}
use audiax_backend.Common.Text.Search.{Contains, contains_iff}
use audiax_backend.Constants.{danger_keywords}
use audiax_backend.Usecase.Advisory.{contains_danger_keyword}

any_sound :
    (s : Text) (ks : List Text)
    → any (λ k. contains s k) ks ≡ true
    → (k : Text) × In k ks × Contains s k
any_sound s [] h = cc
any_sound s (k ∷ ks) h = elim (Bool-cases (contains s k)) [
  | inl found ↦ (k, inl refl, (contains_iff s k).0 found)
  | inr missing ↦ let (j, i, c) = any_sound s ks (rw missing at h) in (j, inr i, c)
]

any_complete :
    (s : Text) (ks : List Text) (k : Text)
    → In k ks
    → Contains s k
    → any (λ x. contains s x) ks ≡ true
any_complete s [] k i c = elim i [ ]
any_complete s (x ∷ ks) k (inl e) c = rw (← e, (contains_iff s k).1 c) refl
any_complete s (x ∷ ks) k (inr i) c = ground (arith, any_complete s ks k i c)

-- The test finds exactly the messages in which, in lower case, a danger keyword stands.
pub contains_danger_keyword_iff :
    (u : Unicode) (message : Text)
    → (contains_danger_keyword u message ≡ true)
      ↔ ((k : Text) × In k danger_keywords × Contains (to_lower u message) k)
unfolding contains_danger_keyword
contains_danger_keyword_iff u message = (
  any_sound (to_lower u message) danger_keywords,
  λ (k, i, c). any_complete (to_lower u message) danger_keywords k i c,
)

map-append : (u : Unicode) (s t : Text) → map u.lower (s ++ t) ≡ map u.lower s ++ map u.lower t
map-append u [] t = refl
map-append u (c ∷ s) t = ap (λ r. u.lower c ∷ r) (map-append u s t)

lower_ascii_text :
    (u : Unicode) (s : Text) → All (λ c. c < 128) s → map u.lower s ≡ map ascii_lower s
lower_ascii_text u [] h = refl
lower_ascii_text u (c ∷ s) (h, hs) = cc (u.lower_ascii c h, lower_ascii_text u s hs)

-- A keyword written in ASCII letters of either case, anywhere in the message, is found.
pub danger_any_case :
    (u : Unicode) (before word after : Text)
    → All (λ c. c < 128) word
    → In (map ascii_lower word) danger_keywords
    → contains_danger_keyword u (before ++ (word ++ after)) ≡ true
unfolding to_lower
danger_any_case u before word after ascii listed =
    (contains_danger_keyword_iff u (before ++ (word ++ after))).1 (
      map ascii_lower word,
      listed,
      (
        map u.lower before,
        record {
          after = map u.lower after;
          split_at =
              map-append u before (word ++ after)
              ∙ ap (λ t. map u.lower before ++ t)
                  (map-append u word after
                    ∙ ap (λ t. t ++ map u.lower after) (lower_ascii_text u word ascii));
        },
      ),
    )
