-- ===== src/BotGate/Scoring/Types.antt =====
-- The input types of scoring expressions: `findInvalidScoringFieldOperator` of
-- backend/packages/contracts/src/botblocker-scoring.ts.
use powerotp.Prelude.{
  Bool, true, false, not, ◌&&◌, ◌||◌, Option, none, some, ◌==◌, if◌then◌else◌, length, leb, ◌≡◌,
  refl, subst, arith,
}
use powerotp.BotGate.Scoring.{
  Doubles, FieldInputName, value, width, height, max_touch_points, touch_event, touch_start,
  Comparison, eq, neq, BinaryOp, UnaryOp, InputType, screen_resolution, touch_support,
  boolean_array, ValueType, value_type_eq, input_type_eq, FieldValue, boolean, ScoringInput,
  booleans, resolution, touch, Expression, leaf, literal, unary, binary, FieldLeaf, input, count,
  true_count, true_ratio, compare, type_of, is_equality, is_number, has_invalid_operator,
  is_invalid_leaf, is_invalid_comparison, evaluate_field_leaf, compares, resolve_field_input,
  field_input_type, safe, compare_values, apply_unary, apply_binary, trues, evaluate_field,
  unary_of, binary_of, usable,
}

-- What an input holds under a name that can be an operand: a value, or nothing. The `null` of an
-- unknown size is no operand of a number's type.
pub data Found (N : Type 0) : Type 0 where
  found : FieldValue N → Found N
  missing : Found N

-- An evaluation that tells a mistyped operator from a number that is undefined.
pub data Verdict (N : Type 0) : Type 0 where
  number : N → Verdict N
  undefined mistyped : Verdict N

module _ {N : Type 0} where
  abbrev pub input_type_of : ScoringInput N → InputType
  input_type_of (ScoringInput.number v) = InputType.number
  input_type_of (ScoringInput.string t) = InputType.string
  input_type_of (booleans bs) = boolean_array
  input_type_of (resolution w h) = screen_resolution
  input_type_of (touch points event start) = touch_support

  -- The sizes of a screen are known, when the input is one.
  abbrev pub has_sizes : ScoringInput N → Bool
  has_sizes (resolution (some w) (some h)) = true
  has_sizes (resolution _ _) = false
  has_sizes _ = true

  abbrev found_size : Option N → Found N
  found_size none = missing
  found_size (some v) = found (FieldValue.number v)

  abbrev pub look_up : ScoringInput N → FieldInputName → Found N
  look_up (ScoringInput.number v) value = found (FieldValue.number v)
  look_up (ScoringInput.string t) value = found (FieldValue.string t)
  look_up (resolution w h) width = found_size w
  look_up (resolution w h) height = found_size h
  look_up (touch points event start) max_touch_points = found (FieldValue.number points)
  look_up (touch points event start) touch_event = found (boolean event)
  look_up (touch points event start) touch_start = found (boolean start)
  look_up _ _ = missing

  abbrev verdict_of : Option N → Verdict N
  verdict_of none = undefined
  verdict_of (some v) = number v

  abbrev pub defined : Verdict N → Option N
  defined (number v) = some v
  defined _ = none

  abbrev pub is_mistyped : Verdict N → Bool
  is_mistyped mistyped = true
  is_mistyped _ = false

module _ (doubles : Doubles) where
  abbrev Number : Type 0
  Number = doubles.Double

  abbrev checked_number : Found Number → Verdict Number
  checked_number (found (FieldValue.number v)) = verdict_of (safe doubles v)
  checked_number (found _) = mistyped
  checked_number missing = mistyped

  abbrev choose : Bool → Number → Number → Verdict Number
  choose b when_true when_false =
      verdict_of (if b then safe doubles when_true else safe doubles when_false)

  abbrev checked_compare :
      Found Number → Comparison → FieldValue Number → Number → Number → Verdict Number
  checked_compare missing c expected a b = mistyped
  checked_compare (found v) c expected a b =
      if type_of v == type_of expected && (type_of v == ValueType.number || is_equality c)
      then choose (compare_values doubles v c expected) a b
      else mistyped

  abbrev checked_leaf : ScoringInput Number → FieldLeaf Number → Verdict Number
  checked_leaf i (input name) = checked_number (look_up i name)
  checked_leaf i (compare name c expected a b) = checked_compare (look_up i name) c expected a b
  checked_leaf (booleans bs) count = verdict_of (safe doubles (doubles.of_ℕ (length bs)))
  checked_leaf (booleans bs) true_count =
      verdict_of (safe doubles (doubles.of_ℕ (trues doubles bs)))
  checked_leaf (booleans bs) true_ratio = verdict_of (
      if leb (length bs) 0
      then none
      else safe doubles (doubles.over (doubles.of_ℕ (trues doubles bs)) (doubles.of_ℕ (length bs))))
  checked_leaf _ _ = mistyped

  abbrev checked_unary : UnaryOp → Verdict Number → Verdict Number
  checked_unary op (number v) = verdict_of (apply_unary doubles op v)
  checked_unary op undefined = undefined
  checked_unary op mistyped = mistyped

  abbrev checked_binary : BinaryOp → Verdict Number → Verdict Number → Verdict Number
  checked_binary op (number a) (number b) = verdict_of (apply_binary doubles op a b)
  checked_binary op mistyped _ = mistyped
  checked_binary op _ mistyped = mistyped
  checked_binary op _ _ = undefined

  abbrev pub checked : ScoringInput Number → Expression Number (FieldLeaf Number) → Verdict Number
  checked i (leaf l) = checked_leaf i l
  checked i (literal v) = verdict_of (safe doubles v)
  checked i (unary op e) = checked_unary op (checked i e)
  checked i (binary op l r) = checked_binary op (checked i l) (checked i r)

  defined-verdict : (o : Option Number) → defined (verdict_of o) ≡ o
  defined-verdict none = refl
  defined-verdict (some v) = refl

  -- The verdict is a number or undefined, as the evaluation says.
  abbrev Agrees : Verdict Number → Option Number → Type 0
  Agrees v o = (defined v ≡ o) × (is_mistyped v ≡ false)

  Agrees-verdict : (o : Option Number) → Agrees (verdict_of o) o
  Agrees-verdict none = (refl, refl)
  Agrees-verdict (some v) = (refl, refl)

  abbrev found_of : Found Number → Option (FieldValue Number)
  found_of (found v) = some v
  found_of _ = none

  abbrev type_found : ValueType → Found Number → Bool
  type_found t (found v) = type_of v == t
  type_found t missing = false

  compare-Agrees :
      (t : ValueType) (f : Found Number) (c : Comparison) (expected : FieldValue Number)
      (a b : Number)
      → type_found t f ≡ true
      → is_invalid_comparison (some t) c expected ≡ false
      → Agrees
          (checked_compare f c expected a b)
          (if compares doubles (found_of f) c expected then safe doubles a else safe doubles b)
  compare-Agrees t missing c expected a b h k = cc
  compare-Agrees ValueType.number (found (FieldValue.number v)) c (FieldValue.number e) a b h k =
      Agrees-verdict _
  compare-Agrees ValueType.number (found (FieldValue.number v)) c (FieldValue.string e) a b h k = cc
  compare-Agrees ValueType.number (found (FieldValue.number v)) c (boolean e) a b h k = cc
  compare-Agrees ValueType.number (found (FieldValue.string v)) c expected a b h k = cc
  compare-Agrees ValueType.number (found (boolean v)) c expected a b h k = cc
  compare-Agrees ValueType.string (found (FieldValue.number v)) c expected a b h k = cc
  compare-Agrees ValueType.string (found (FieldValue.string v)) c (FieldValue.number e) a b h k = cc
  compare-Agrees ValueType.string (found (FieldValue.string v)) eq (FieldValue.string e) a b h k =
      Agrees-verdict _
  compare-Agrees ValueType.string (found (FieldValue.string v)) neq (FieldValue.string e) a b h k =
      Agrees-verdict _
  compare-Agrees ValueType.string (found (FieldValue.string v)) _ (FieldValue.string e) a b h k = cc
  compare-Agrees ValueType.string (found (FieldValue.string v)) c (boolean e) a b h k = cc
  compare-Agrees ValueType.string (found (boolean v)) c expected a b h k = cc
  compare-Agrees ValueType.boolean (found (FieldValue.number v)) c expected a b h k = cc
  compare-Agrees ValueType.boolean (found (FieldValue.string v)) c expected a b h k = cc
  compare-Agrees ValueType.boolean (found (boolean v)) c (FieldValue.number e) a b h k = cc
  compare-Agrees ValueType.boolean (found (boolean v)) c (FieldValue.string e) a b h k = cc
  compare-Agrees ValueType.boolean (found (boolean v)) eq (boolean e) a b h k = Agrees-verdict _
  compare-Agrees ValueType.boolean (found (boolean v)) neq (boolean e) a b h k = Agrees-verdict _
  compare-Agrees ValueType.boolean (found (boolean v)) _ (boolean e) a b h k = cc

  look_up-found :
      (i : ScoringInput Number) (name : FieldInputName)
      → found_of (look_up i name) ≡ resolve_field_input i name
  look_up-found i name = ground arith

  abbrev fits : Option ValueType → Found Number → Bool
  fits none f = true
  fits (some t) f = type_found t f

  look_up-fits :
      (i : ScoringInput Number) (name : FieldInputName)
      → has_sizes i ≡ true
      → fits (field_input_type (input_type_of i) name) (look_up i name) ≡ true
  look_up-fits i name sized = ground (arith, sized)

  input-Agrees :
      (o : Option ValueType) (f : Found Number)
      → not (is_number o) ≡ false
      → fits o f ≡ true
      → Agrees (checked_number f) (usable doubles (found_of f))
  input-Agrees none f k h = cc
  input-Agrees (some ValueType.string) f k h = cc
  input-Agrees (some ValueType.boolean) f k h = cc
  input-Agrees (some ValueType.number) missing k h = cc
  input-Agrees (some ValueType.number) (found (FieldValue.number v)) k h = Agrees-verdict _
  input-Agrees (some ValueType.number) (found (FieldValue.string v)) k h = cc
  input-Agrees (some ValueType.number) (found (boolean v)) k h = cc

  compare_leaf-Agrees :
      (o : Option ValueType) (f : Found Number) (c : Comparison) (expected : FieldValue Number)
      (a b : Number)
      → is_invalid_comparison o c expected ≡ false
      → fits o f ≡ true
      → Agrees
          (checked_compare f c expected a b)
          (if compares doubles (found_of f) c expected then safe doubles a else safe doubles b)
  compare_leaf-Agrees none f c expected a b k h = cc
  compare_leaf-Agrees (some t) f c expected a b k h = compare-Agrees t f c expected a b h k

  leaf-Agrees :
      (l : FieldLeaf Number) (i : ScoringInput Number)
      → has_sizes i ≡ true
      → is_invalid_leaf l (input_type_of i) ≡ false
      → Agrees (checked_leaf i l) (evaluate_field_leaf doubles i l)
  leaf-Agrees (input name) i sized k =
      subst (λ o. Agrees (checked_number (look_up i name)) (usable doubles o))
        (look_up-found i name)
        (input-Agrees (field_input_type (input_type_of i) name) (look_up i name) k
          (look_up-fits i name sized))
  leaf-Agrees (compare name c expected a b) i sized k =
      subst
        (λ o.
          Agrees (checked_compare (look_up i name) c expected a b)
            (if compares doubles o c expected then safe doubles a else safe doubles b))
        (look_up-found i name)
        (compare_leaf-Agrees (field_input_type (input_type_of i) name) (look_up i name) c expected a
          b k (look_up-fits i name sized))
  leaf-Agrees count (booleans bs) sized k = Agrees-verdict _
  leaf-Agrees count _ sized k = cc
  leaf-Agrees true_count (booleans bs) sized k = Agrees-verdict _
  leaf-Agrees true_count _ sized k = cc
  leaf-Agrees true_ratio (booleans bs) sized k = Agrees-verdict _
  leaf-Agrees true_ratio _ sized k = cc

  unary-Agrees :
      (op : UnaryOp) (v : Verdict Number) (o : Option Number)
      → Agrees v o
      → Agrees (checked_unary op v) (unary_of doubles op o)
  unary-Agrees op (number v) o h =
      subst (λ q. Agrees (checked_unary op (number v)) (unary_of doubles op q)) h.0
        (Agrees-verdict _)
  unary-Agrees op undefined o h =
      subst (λ q. Agrees undefined (unary_of doubles op q)) h.0 (refl, refl)
  unary-Agrees op mistyped o h = cc

  binary-Agrees :
      (op : BinaryOp) (v w : Verdict Number) (o q : Option Number)
      → Agrees v o
      → Agrees w q
      → Agrees (checked_binary op v w) (binary_of doubles op o q)
  binary-Agrees op v w o q h k =
      subst (λ a. Agrees (checked_binary op v w) (binary_of doubles op a q)) h.0
        (subst (λ b. Agrees (checked_binary op v w) (binary_of doubles op (defined v) b)) k.0
          (both op v w h.1 k.1))
    where
      both :
          (op : BinaryOp) (v w : Verdict Number)
          → is_mistyped v ≡ false
          → is_mistyped w ≡ false
          → Agrees (checked_binary op v w) (binary_of doubles op (defined v) (defined w))
      both op (number a) (number b) h k = Agrees-verdict _
      both op mistyped w h k = cc
      both op v mistyped h k = cc
      both op undefined (number b) h k = (refl, refl)
      both op (number a) undefined h k = (refl, refl)
      both op undefined undefined h k = (refl, refl)

or_false : (a b : Bool) → (a || b) ≡ false → (a ≡ false) × (b ≡ false)
or_false true b h = cc
or_false false b h = (refl, h)

-- An expression in which the check of the configuration finds no invalid operator for the type of
-- its field never meets an operand of another type: on every input of that type, a screen of
-- unknown sizes excepted, it gives what the evaluation that tells mistyped operators apart gives, and that one finds none.
pub evaluate_field-checked :
    (doubles : Doubles) (e : Expression doubles.Double (FieldLeaf doubles.Double))
    (i : ScoringInput doubles.Double)
    → has_sizes i ≡ true
    → has_invalid_operator e (input_type_of i) ≡ false
    → let verdict = checked doubles i e in
      (defined verdict ≡ evaluate_field doubles e i) × (is_mistyped verdict ≡ false)
evaluate_field-checked doubles (leaf l) i sized k = leaf-Agrees doubles l i sized k
evaluate_field-checked doubles (literal v) i sized k = Agrees-verdict doubles _
evaluate_field-checked doubles (unary op e) i sized k =
    unary-Agrees doubles op _ _ (evaluate_field-checked doubles e i sized k)
evaluate_field-checked doubles (binary op l r) i sized k =
    let h = or_false (has_invalid_operator l (input_type_of i)) _ k in
    binary-Agrees doubles op _ _ _ _ (evaluate_field-checked doubles l i sized h.0)
      (evaluate_field-checked doubles r i sized h.1)
