-- ===== src/Config/Bounds.antt =====
-- Bounds on what an operator selects, for `select_promo` and `select_max_output_tokens` of
-- obolus/src/config.rs.
use obolus.Prelude.{
  ℕ, ◌≤◌, ◌<◌, ◌≡◌, ◌⊎◌, inl, inr, refl, String, true, Option, none, some, arith, Bool-cases, subst,
  sym, List, is_empty, trim, all, codes, is_ascii_digit,
}
use obolus.Prelude.Results.{ok, >>=-eq-ok, ok-injective}
use obolus.Amount.{parse_u128}
use obolus.Pricing.{u64_max}
use obolus.Gateway.{default_max_output_tokens}
use obolus.Config.Pricing.{parse_up_to, u32_max}
use obolus.Config.Choices.{parse_up_to-eq-some}
use obolus.Config.Window.{
  PromoConfig, check_discount, or_bad_timestamp, parse_ts, check_window, read_promo, complete_promo,
  select_promo, promo_discount_bps_var, promo_start_var, promo_end_var, read_cap, nonzero_cap,
  select_max_output_tokens, max_output_tokens_var,
}

check_discount-eq-ok :
    (raw : String) (read : Option ℕ) {bps : ℕ}
    → check_discount raw read ≡ ok bps
    → (read ≡ some bps) × (0 < bps) × (bps < 10000)
check_discount-eq-ok raw none h = cc
check_discount-eq-ok raw (some n) h = ground arith

or_bad_timestamp-eq-ok :
    (var raw : String) (read : Option ℕ) {t : ℕ}
    → or_bad_timestamp var raw read ≡ ok t
    → read ≡ some t
or_bad_timestamp-eq-ok var raw none h = cc
or_bad_timestamp-eq-ok var raw (some t) h = ground arith

-- A promotion that is read from its three texts.
pub record IsPromotion (now_unix : ℕ) (discount start end : String) (p : PromoConfig) : Type 0 where
  pub discount_read : parse_u128 discount ≡ some p.discount_bps
  pub start_read : parse_u128 start ≡ some p.start
  pub end_read : parse_u128 end ≡ some p.end
  pub discounts : 0 < p.discount_bps
  pub leaves_some : p.discount_bps < 10000
  pub opens : p.start < p.end
  pub not_over : now_unix < p.end
  pub in_u64 : p.end ≤ u64_max

module _ (now_unix : ℕ) where
  check_window-eq-ok :
      (p : PromoConfig) {found : Option PromoConfig}
      → check_window now_unix p ≡ ok found
      → (some p ≡ found) × (p.start < p.end) × (now_unix < p.end)
  check_window-eq-ok p h = ground arith

  read_promo-IsPromotion :
      (discount start end : String) {found : Option PromoConfig}
      → read_promo now_unix discount start end ≡ ok found
      → (p : PromoConfig) × (found ≡ some p) × IsPromotion now_unix discount start end p
  read_promo-IsPromotion discount start end h =
      let (bps, bounded, h1) =
        >>=-eq-ok (check_discount discount (parse_up_to u32_max discount)) _ h in
      let (from, opened, h2) = >>=-eq-ok (parse_ts promo_start_var start) _ h1 in
      let (to, closed, h3) = >>=-eq-ok (parse_ts promo_end_var end) _ h2 in
      let promo : PromoConfig = record { discount_bps = bps; start = from; end = to } in
      let (same, opens, ends) = check_window-eq-ok promo h3 in
      let (read, some_off, some_left) = check_discount-eq-ok discount _ bounded in
      let (closing, small) =
        parse_up_to-eq-some u64_max end (or_bad_timestamp-eq-ok _ end _ closed) in
      (
        promo,
        sym same,
        record {
          discount_read = (parse_up_to-eq-some u32_max discount read).0;
          start_read =
              (parse_up_to-eq-some u64_max start (or_bad_timestamp-eq-ok _ start _ opened)).0;
          end_read = closing;
          discounts = some_off;
          leaves_some = some_left;
          opens = opens;
          not_over = ends;
          in_u64 = small;
        },
      )

nonzero_cap-eq-ok :
    (raw : String) (read : Option ℕ) {cap : ℕ}
    → nonzero_cap raw read ≡ ok cap
    → (read ≡ some cap) × (0 < cap)
nonzero_cap-eq-ok raw none h = cc
nonzero_cap-eq-ok raw (some n) h = ground arith

read_cap-nonzero :
    (raw : String) {cap : ℕ}
    → read_cap (some raw) ≡ ok cap
    → (all is_ascii_digit (codes (trim raw)) ≡ true)
      × (nonzero_cap raw (parse_up_to u64_max (trim raw)) ≡ ok cap)
read_cap-nonzero raw h = elim (Bool-cases (is_empty (trim raw))) [
  | inl e ↦ absurd (ground arith)
  | inr e ↦ elim (Bool-cases (all is_ascii_digit (codes (trim raw)))) [
    | inl d ↦ (d, rw (e, d) at h)
    | inr d ↦ absurd (ground arith)
  ]
]

module _ (get : String → Option String) where
  -- None of the three variables is set and there is no promotion, or all three are and it is theirs.
  abbrev pub IsSelected : (now_unix : ℕ) → Option PromoConfig → Type 0
  IsSelected now_unix none =
      (get promo_discount_bps_var ≡ none)
      × (get promo_start_var ≡ none)
      × (get promo_end_var ≡ none)
  IsSelected now_unix (some p) =
      (discount : String) × (start : String) × (end : String) × (get promo_discount_bps_var
        ≡ some discount)
      × (get promo_start_var ≡ some start)
      × (get promo_end_var ≡ some end)
      × IsPromotion now_unix discount start end p

  complete_promo-IsSelected :
      (now_unix : ℕ) (discount start end : Option String) (present missing : List String)
      {found : Option PromoConfig}
      → get promo_discount_bps_var ≡ discount
      → get promo_start_var ≡ start
      → get promo_end_var ≡ end
      → complete_promo now_unix discount start end present missing ≡ ok found
      → IsSelected now_unix found
  complete_promo-IsSelected now_unix (some d) (some s) (some e) present missing a b c h =
      let (p, same, promotion) = read_promo-IsPromotion now_unix d s e h in
      subst (IsSelected now_unix) (sym same) (d, s, e, a, b, c, promotion)
  complete_promo-IsSelected now_unix none none none present missing a b c h =
      subst (IsSelected now_unix) (ok-injective h) (a, b, c)
  complete_promo-IsSelected now_unix none none (some e) present missing a b c h = cc
  complete_promo-IsSelected now_unix none (some s) none present missing a b c h = cc
  complete_promo-IsSelected now_unix none (some s) (some e) present missing a b c h = cc
  complete_promo-IsSelected now_unix (some d) none none present missing a b c h = cc
  complete_promo-IsSelected now_unix (some d) none (some e) present missing a b c h = cc
  complete_promo-IsSelected now_unix (some d) (some s) none present missing a b c h = cc

  -- There is no promotion exactly where no variable of one is set. One that is accepted is what the
  -- three texts read as; it takes something off and leaves something; and its window opens before
  -- it closes, and has not closed yet.
  pub select_promo-IsSelected :
      (now_unix : ℕ) {found : Option PromoConfig}
      → select_promo get now_unix ≡ ok found
      → IsSelected now_unix found
  unfolding select_promo
  select_promo-IsSelected now_unix h =
      complete_promo-IsSelected now_unix (get promo_discount_bps_var) (get promo_start_var)
        (get promo_end_var) _ _ refl refl refl h

  read_cap-bounds :
      (value : Option String) {cap : ℕ}
      → read_cap value ≡ ok cap
      → (0 < cap)
        × (cap ≤ u64_max)
        × (((value ≡ none) × (cap ≡ default_max_output_tokens))
            ⊎ ((raw : String) × (value ≡ some raw)
                × (all is_ascii_digit (codes (trim raw)) ≡ true)
                × (parse_u128 (trim raw) ≡ some cap)))
  read_cap-bounds none h = (ground arith, ground arith, inl (refl, ground arith))
  read_cap-bounds (some raw) h =
      let (digits, counted) = read_cap-nonzero raw h in
      let (read, positive) = nonzero_cap-eq-ok raw _ counted in
      let (parsed, small) = parse_up_to-eq-some u64_max (trim raw) read in
      (positive, small, inr (raw, refl, digits, parsed))

  -- The cap is never zero and within a `u64`. It is the default exactly where the variable is not
  -- set; else it is what the trimmed text, digits alone, reads as.
  pub select_max_output_tokens-bounds :
      {cap : ℕ}
      → select_max_output_tokens get ≡ ok cap
      → (0 < cap)
        × (cap ≤ u64_max)
        × (((get max_output_tokens_var ≡ none) × (cap ≡ default_max_output_tokens))
            ⊎ ((raw : String) × (get max_output_tokens_var ≡ some raw)
                × (all is_ascii_digit (codes (trim raw)) ≡ true)
                × (parse_u128 (trim raw) ≡ some cap)))
  unfolding select_max_output_tokens
  select_max_output_tokens-bounds h = read_cap-bounds (get max_output_tokens_var) h
