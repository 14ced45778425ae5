-- ===== src/Tests/Sessions.antt =====
-- A Redis in memory, without expiry, and the theorems on sessions over it.
use audiax_backend.Common.{
  ◌≡◌, refl, ap, inl, inr, true, Option, none, some, List, [], ◌∷◌, any, In, arith, if◌then◌else◌,
}
use audiax_backend.Common.Text.{Text, text, ◌==◌}
use audiax_backend.Common.Text.Search.{eq_refl}
use audiax_backend.Errors.{sentinel, redis_nil}
use audiax_backend.Exec.{Result, ok, err, pure}
use audiax_backend.Repository.Session.{create, delete_all_for_user}
use audiax_backend.Repository.Session.Redis.{
  Command, set, s_add, expire, del, RedisClient, RedisLaws,
}

pub record Memory : Type 0 where
  pub strings : Text → Option Text
  pub sets : Text → List Text

abbrev applied : Command → Memory → Memory
applied (set key value ttl) m = record m {
  strings = λ k. if k == key then some value else m.strings k;
}
applied (s_add index member) m = record m {
  sets = λ k. if k == index then member ∷ m.sets k else m.sets k;
}
applied (expire key ttl) m = m
applied (del keys) m = record {
  strings = λ k. if any (λ x. k == x) keys then none else m.strings k;
  sets = λ k. if any (λ x. k == x) keys then [] else m.sets k;
}

abbrev run : List Command → Memory → Memory
run [] m = m
run (c ∷ cs) m = run cs (applied c m)

abbrev found : Option Text → Result Text
found none = err (sentinel redis_nil)
found (some value) = ok value

abbrev pub redis : RedisClient Memory
redis = record {
  random_token = pure (text "t1");
  digest = λ token. token;
  get = λ key m. (found (m.strings key), m);
  del_one = λ key m. (ok tt, applied (del (key ∷ [])) m);
  s_members = λ index m. (ok (m.sets index), m);
  exec = λ cs m. (ok tt, run cs m);
}

In-any : (key : Text) (keys : List Text) → In key keys → any (λ x. key == x) keys ≡ true
In-any key [] i = elim i [ ]
In-any key (k ∷ keys) (inl e) = rw (← e, eq_refl key) refl
In-any key (k ∷ keys) (inr i) = ground (arith, In-any key keys i)

left_behind : {a b : Memory} → Path (Result {0} Unit × Memory) (ok tt, a) (ok tt, b) → a ≡ b
left_behind h = ap (λ p. p.1) h

pub redis_laws : RedisLaws redis
redis_laws = record {
  members = λ m. m.sets;
  Missing = λ m key. m.strings key ≡ none;
  exec-members =
      λ key value index ttl longer w w' h. rw (← left_behind h, eq_refl index) (inl refl);
  s_members-members = λ index keys w w' h. cc;
  exec-Missing =
      λ keys index key w w' h i. rw (← left_behind h) (ground (arith, In-any key keys i));
  del_one-Missing = λ key w w' h. rw (← left_behind h, eq_refl key) refl;
  Missing-get = λ key w gone. rw gone refl;
}

abbrev pub empty : Memory
empty = record { strings = λ key. none; sets = λ key. [] }

abbrev pub opened : Memory
opened = (create redis (text "u1") 100 empty).1

abbrev revoked : Memory
revoked = (delete_all_for_user redis (text "u1") opened).1
