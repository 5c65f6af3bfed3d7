-- ===== src/Registry/Normal.antt =====
-- What `_normalize_string_list` returns.
use swarmbus.Base.{
  ◌≡◌, refl, ℕ, Bool, true, false, not, ◌&&◌, List, [], ◌∷◌, ◌++◌, Text, text_eq, Option, arith,
  Bool-cases, inl, inr, any, every, every-append, any-append,
}
use swarmbus.Base.Result.{ok, value_error, raise_if-eq-ok}
use swarmbus.Message.Json.{Json, null, bool, int, real, str, arr, obj, Items, nil, cons}
use swarmbus.Registry.Records.{
  normalize_items, normalize_string_list, clean_item, too_long, push_new,
}

abbrev pub is_unique : List Text → Bool
is_unique [] = true
is_unique (x ∷ xs) = not (any (text_eq x) xs) && is_unique xs

abbrev pub is_entry : Option ℕ → Text → Bool
is_entry limit s = not (text_eq s []) && not (too_long limit s)

-- No entry twice, none empty, none over the limit.
abbrev pub is_normal : Option ℕ → List Text → Bool
is_normal limit xs = is_unique xs && every (is_entry limit) xs

text_eq_sym : (s t : Text) → text_eq s t ≡ text_eq t s
unfolding text_eq
text_eq_sym [] [] = refl
text_eq_sym [] (d ∷ t) = refl
text_eq_sym (c ∷ s) [] = refl
text_eq_sym (c ∷ s) (d ∷ t) = ground (arith, text_eq_sym s t)

is_unique-append :
    (x : Text) (xs : List Text)
    → any (text_eq x) xs ≡ false
    → is_unique xs ≡ true
    → is_unique (xs ++ x ∷ []) ≡ true
is_unique-append x [] h u = refl
is_unique-append x (y ∷ xs) h u =
    ground (arith, any-append (text_eq y) xs (x ∷ []), is_unique-append x xs, text_eq_sym x y)

push_new-is_normal :
    (limit : Option ℕ) (x : Text) (xs : List Text)
    → is_entry limit x ≡ true
    → is_normal limit xs ≡ true
    → is_normal limit (push_new x xs) ≡ true
push_new-is_normal limit x xs h n = elim (Bool-cases (any (text_eq x) xs)) [
  | inl e ↦ rw e n
  | inr e ↦
      rw e (ground (arith, is_unique-append x xs e, every-append (is_entry limit) xs (x ∷ [])))
]

normalize_items-is_normal :
    (limit : Option ℕ) (items : Items) (acc : List Text) {xs : List Text}
    → is_normal limit acc ≡ true
    → normalize_items limit items acc ≡ ok xs
    → is_normal limit xs ≡ true
unfolding normalize_items
normalize_items-is_normal limit nil acc n h = ground arith
normalize_items-is_normal limit (cons (str s) items) acc n h =
    let (filled, h') = raise_if-eq-ok (text_eq (clean_item s) []) value_error _ h in
    let (short, h'') = raise_if-eq-ok (too_long limit (clean_item s)) value_error _ h' in
    normalize_items-is_normal limit items (push_new (clean_item s) acc)
      (push_new-is_normal limit (clean_item s) acc (rw (filled, short) refl) n) h''
normalize_items-is_normal limit (cons null items) acc n h = cc
normalize_items-is_normal limit (cons (bool b) items) acc n h = cc
normalize_items-is_normal limit (cons (int z) items) acc n h = cc
normalize_items-is_normal limit (cons (real r) items) acc n h = cc
normalize_items-is_normal limit (cons (arr ys) items) acc n h = cc
normalize_items-is_normal limit (cons (obj fs) items) acc n h = cc

-- A list that `_normalize_string_list` returns names no entry twice, and each entry is not empty and, where there is
-- a limit, not longer than the limit.
pub normalize_string_list-is_normal :
    (limit : Option ℕ) (value : Json) {xs : List Text}
    → normalize_string_list limit value ≡ ok xs
    → is_normal limit xs ≡ true
unfolding normalize_string_list
normalize_string_list-is_normal limit (arr items) h =
    normalize_items-is_normal limit items [] refl h
normalize_string_list-is_normal limit null h = cc
normalize_string_list-is_normal limit (bool b) h = cc
normalize_string_list-is_normal limit (int z) h = cc
normalize_string_list-is_normal limit (real r) h = cc
normalize_string_list-is_normal limit (str s) h = cc
normalize_string_list-is_normal limit (obj fs) h = cc
