-- ===== src/Prelude/CtypeLaws.antt =====
-- How the conversions of <ctype.h> and its tests go together.
use machine_project.Prelude.{ℕ, ◌≡◌, false, true, arith}
use machine_project.Prelude.Ctype.{is_space, is_punct, to_lower, to_upper}

pub is_space-to_lower : (c : ℕ) → is_space (to_lower c) ≡ is_space c
unfolding is_space to_lower
is_space-to_lower c = ground arith

pub is_space-to_upper : (c : ℕ) → is_space (to_upper c) ≡ is_space c
unfolding is_space to_upper
is_space-to_upper c = ground arith

pub is_punct-to_lower : (c : ℕ) → is_punct (to_lower c) ≡ is_punct c
unfolding is_punct to_lower
is_punct-to_lower c = ground arith

pub is_punct-to_upper : (c : ℕ) → is_punct (to_upper c) ≡ is_punct c
unfolding is_punct to_upper
is_punct-to_upper c = ground arith

pub to_lower-to_lower : (c : ℕ) → to_lower (to_lower c) ≡ to_lower c
unfolding to_lower
to_lower-to_lower c = ground arith

pub to_lower-to_upper : (c : ℕ) → to_lower (to_upper c) ≡ to_lower c
unfolding to_lower to_upper
to_lower-to_upper c = ground arith

pub space_not_punct : (c : ℕ) → is_space c ≡ true → is_punct c ≡ false
unfolding is_space is_punct
space_not_punct c h = ground arith
