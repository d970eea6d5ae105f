-- ===== src/Capability/Tests.antt =====
-- Runs of the model of src/capability.rs, and the theorems at concrete inputs.
use iso_light_k.Common.{
  ℕ, zero, suc, ◌≡◌, refl, true, none, some, List, [], ◌∷◌, replicate, length, ok,
}
use iso_light_k.Capability.{Capability, derive, is_valid_for}
use iso_light_k.Capability.Rights
use iso_light_k.Capability.Rights.{contains}
use iso_light_k.Capability.Laws.{here, next, Derived-attenuates}
use iso_light_k.Capability.Space.{CapabilitySpace, insert, find_by_token}
use iso_light_k.Capability.Space.Laws.{IsValid}
use iso_light_k.Common.Loop.{iterate}
use iso_light_k.Capability.Drbg.{
  gen_token_u64, token_step, DrbgApi, Generated, done, reseed_required, Kernel, generate_capability,
}

-- A capability for the crypto service with all rights, and one that may only call.
abbrev full_cap : Capability
full_cap = record { token = 7; endpoint_id = 1; rights = 15 }

abbrev call_cap : Capability
call_cap = record { token = 7; endpoint_id = 1; rights = 4 }

derive_full : derive full_cap 4 ≡ ok call_cap
unfolding derive Rights.contains Rights.restrict
derive_full = refl

call_cap_calls : is_valid_for call_cap 1 4 ≡ true
unfolding is_valid_for Rights.contains
call_cap_calls = refl

Derived-attenuates_example : (is_valid_for full_cap 1 4 ≡ true) × (full_cap.token ≡ call_cap.token)
Derived-attenuates_example =
    Derived-attenuates {c = full_cap} {d = call_cap} 1 4 (next 4 here derive_full) call_cap_calls

abbrev one_cap : CapabilitySpace
one_cap = record { slots = some full_cap ∷ replicate 31 none; count = 1 }

abbrev two_caps : CapabilitySpace
two_caps = record { slots = some full_cap ∷ some call_cap ∷ replicate 30 none; count = 2 }

one_cap-IsValid : IsValid one_cap
one_cap-IsValid = record { sized = refl; counted = refl }

insert_second : (insert one_cap call_cap).1 ≡ some 1
unfolding insert
insert_second = refl

find_seven : find_by_token two_caps 7 ≡ some 0
unfolding find_by_token
find_seven = refl

-- A generator of ones that counts down to its next reseed.
abbrev ones : List ℕ → ℕ → Generated × List ℕ × ℕ
ones buf zero = (reseed_required, buf, 0)
ones buf (suc left) = (done, replicate (length buf) 1, left)

abbrev counter : DrbgApi
counter = record {
  Drbg = ℕ;
  Env = Unit;
  new_from_entropy = λ entropy nonce personalization. some 1;
  generate = ones;
  reseed = λ seed left. (true, 5);
  fill_hw_entropy = λ n env. (ok (replicate n 3), env);
}

abbrev seeded : Kernel counter []
seeded = record { drbg = some 3; env = tt }

abbrev made_cap : Capability
made_cap = record { token = 72340172838076673; endpoint_id = 1; rights = 4 }

make_cap :
    generate_capability counter [] 1 1 4 seeded
    ≡ some (ok made_cap, record { drbg = some 2; env = tt })
unfolding generate_capability gen_token_u64 token_step iterate
make_cap = refl
