-- ===== src/Router/Constraints/RoundTrip.antt =====
-- Parameters written with a constraint, as parseRouteConstraints of router/util.go reads them.
use aah.Prelude.{
  ℕ, suc, ◌+◌, ◌-◌, ◌≡◌, refl, sym, ap, ◌∙◌, false, ◌∷◌, ◌++◌, append_assoc, some, arith, length,
  length-append, ltb, All-append, ◌==◌,
}
use aah.Text.{Text, trim_space, index_byte}
use aah.Text.Split.{Lacks}
use aah.Text.Index.{index_byte-append, take-append, drop-append_byte}
use aah.Router.Constraints.{
  rule_start_byte, rule_end_byte, constraint, by_index, parameter_constraint,
}

-- the segment `param[rule]` and what comes behind it
abbrev pub with_rule : Text → Text → Text → Text
with_rule param rule behind = param ++ rule_start_byte ∷ (rule ++ rule_end_byte ∷ behind)

end_index :
    (param rule behind : Text)
    → Lacks rule_end_byte param
    → Lacks rule_end_byte rule
    → index_byte (with_rule param rule behind) rule_end_byte ≡ some (length param + 1 + length rule)
end_index param rule behind h k =
    ap (λ t. index_byte t rule_end_byte)
      (sym (append_assoc param (rule_start_byte ∷ rule) (rule_end_byte ∷ behind)))
    ∙ index_byte-append rule_end_byte (param ++ rule_start_byte ∷ rule) behind
        (All-append (λ c. (c == rule_end_byte) ≡ false) param (rule_start_byte ∷ rule) h (refl, k))
    ∙ ap some (length-append param (rule_start_byte ∷ rule) ∙ omega arith)

between-parts :
    (param rule behind : Text) (eidx : ℕ)
    → eidx ≡ suc (length param) + length rule
    → by_index (with_rule param rule behind) (some (length param)) (some eidx)
      ≡ constraint (trim_space param) (trim_space rule) (ltb 0 (length (trim_space rule)))
between-parts param rule behind eidx e =
    rw
      (
        start,
        within,
        order,
        drop-append_byte rule_start_byte param (rule ++ rule_end_byte ∷ behind),
        take-append rule (rule_end_byte ∷ behind),
        take-append param (rule_start_byte ∷ (rule ++ rule_end_byte ∷ behind)),
      )
      refl
  where
    start : length param + 1 ≡ suc (length param)
    start = omega arith

    within : eidx - suc (length param) ≡ length rule
    within = omega arith

    order : ltb eidx (suc (length param)) ≡ false
    order = ground arith

-- A parameter and a rule without brackets, written as `param[rule]`, are read back without the
-- blanks around them; the constraint is valid exactly where the rule is not blank. What stands behind
-- the closing bracket is ignored.
pub parameter_constraint-with_rule :
    (param rule behind : Text)
    → Lacks rule_start_byte param
    → Lacks rule_end_byte param
    → Lacks rule_end_byte rule
    → parameter_constraint (with_rule param rule behind)
      ≡ constraint (trim_space param) (trim_space rule) (ltb 0 (length (trim_space rule)))
unfolding parameter_constraint
parameter_constraint-with_rule param rule behind p q r =
    rw
      (
        index_byte-append rule_start_byte param (rule ++ rule_end_byte ∷ behind) p,
        end_index param rule behind q r,
      )
      (between-parts param rule behind (length param + 1 + length rule) (omega arith))
