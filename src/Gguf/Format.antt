-- ===== src/Gguf/Format.antt =====
-- The format of a model file's header, written down on its own: what a file holds, its bytes, and
-- what the reader of proxy/src/api/hf.rs is to keep of it.
use sovereign_engine.Prelude.{
  ℕ, zero, suc, ◌+◌, ◌%◌, ◌/◌, ◌^◌, ◌≤◌, String, Bool, true, false, not, ◌||◌, Option, none, some,
  List, [], ◌∷◌, ◌++◌, eqb, if◌then◌else◌, length, ◌≡◌, ◌≢◌, is_some,
}
use sovereign_engine.Gguf.{Bytes, from_le_bytes, max_of}
use sovereign_engine.Gguf.Metadata.{GgufMetadata, Target, codes, set_field}

-- The least significant byte first, before other bytes.
unfoldable pub put_le : ℕ → ℕ → Bytes → Bytes
put_le zero n rest = rest
put_le (suc w) n rest = n % 256 ∷ put_le w (n / 256) rest

-- A number has this many bytes.
abbrev pub Fits : ℕ → ℕ → Type 0
Fits zero n = n ≡ 0
Fits (suc w) n = Fits w (n / 256)

mutual
  -- A number, a float or a Boolean by its bytes, a text by its bytes, and an array with the type of
  -- its elements.
  pub data Value : Type 0 where
    number : Bytes → Value
    characters : Bytes → Value
    array : ℕ → Values → Value

  pub data Values : Type 0 where
    no_more : Values
    more : Value → Values → Values

abbrev pub count : Values → ℕ
count no_more = 0
count (more v vs) = suc (count vs)

unfoldable mutual
  pub put_value : Value → Bytes → Bytes
  put_value (number bs) rest = bs ++ rest
  put_value (characters bs) rest = put_le 8 (length bs) (bs ++ rest)
  put_value (array t vs) rest = put_le 4 t (put_le 8 (count vs) (put_values vs rest))

  pub put_values : Values → Bytes → Bytes
  put_values no_more rest = rest
  put_values (more v vs) rest = put_value v (put_values vs rest)

-- How deep arrays stand in arrays, or more.
unfoldable mutual
  pub depth : Value → ℕ
  depth (number bs) = 0
  depth (characters bs) = 0
  depth (array t vs) = suc (depths vs)

  pub depths : Values → ℕ
  depths no_more = 0
  depths (more v vs) = depth v + depths vs

abbrev pub find_size : ℕ → List (ℕ × ℕ) → Option ℕ
find_size t [] = none
find_size t ((u, n) ∷ us) = if eqb t u then some n else find_size t us

-- The number of bytes of a type, as the format fixes it: numbers of 8, 16, 32 and 64 bits with and
-- without a sign, floats of 32 and 64 bits, and Booleans.
unfoldable pub size_of : ℕ → Option ℕ
size_of t = find_size t (
    (0, 1)
    ∷ (1, 1)
    ∷ (2, 2)
    ∷ (3, 2)
    ∷ (4, 4)
    ∷ (5, 4)
    ∷ (6, 4)
    ∷ (7, 1)
    ∷ (10, 8)
    ∷ (11, 8)
    ∷ (12, 8)
    ∷ [])

-- A value of the type: its bytes have the size of the type, a text is UTF-8 and not too long, the
-- elements of an array have their type.
unfoldable mutual
  pub IsValue : (Bytes → Bool) → ℕ → Value → Type 0
  IsValue u t (number bs) = size_of t ≡ some (length bs)
  IsValue u t (characters bs) = (t ≡ 8) × (length bs ≤ 1000000) × (u bs ≡ true)
  IsValue u t (array e vs) = (t ≡ 9) × Fits 4 e × Fits 8 (count vs) × AreValues u e vs

  pub AreValues : (Bytes → Bool) → ℕ → Values → Type 0
  AreValues u t no_more = Unit
  AreValues u t (more v vs) = IsValue u t v × AreValues u t vs

abbrev pub is_int_type : ℕ → Bool
is_int_type t = (eqb t 4 || eqb t 5) || (eqb t 10 || eqb t 11)

-- The u32 that an integer is read as.
abbrev pub int_of : ℕ → Value → Option ℕ
int_of t (number bs) = if is_int_type t then some (from_le_bytes bs % 2 ^ 32) else none
int_of t (characters bs) = none
int_of t (array e vs) = none

abbrev pub cons_int : Option ℕ → List ℕ → List ℕ
cons_int none ns = ns
cons_int (some n) ns = n ∷ ns

abbrev pub ints_of : ℕ → Values → List ℕ
ints_of t no_more = []
ints_of t (more v vs) = cons_int (int_of t v) (ints_of t vs)

abbrev pub bool_of : Value → Bool
bool_of (number bs) = not (eqb (from_le_bytes bs) 0)
bool_of (characters bs) = false
bool_of (array e vs) = false

abbrev pub bools_of : Values → List Bool
bools_of no_more = []
bools_of (more v vs) = bool_of v ∷ bools_of vs

-- The greatest of the numbers and the one so far.
abbrev pub max_from : Option ℕ → List ℕ → Option ℕ
max_from o [] = o
max_from o (n ∷ ns) = max_from (some (max_of o n)) ns

abbrev pub suffix : Target → String
suffix Target.context_length = ".context_length"
suffix Target.block_count = ".block_count"
suffix Target.embedding_length = ".embedding_length"
suffix Target.head_count = ".attention.head_count"
suffix Target.key_length = ".attention.key_length"
suffix Target.value_length = ".attention.value_length"
suffix Target.key_length_swa = ".attention.key_length_swa"
suffix Target.value_length_swa = ".attention.value_length_swa"
suffix Target.sliding_window = ".attention.sliding_window"
suffix Target.expert_count = ".expert_count"
suffix Target.head_count_kv = ".attention.head_count_kv"
suffix Target.sliding_window_pattern = ".attention.sliding_window_pattern"

-- The key is the suffix of the target behind the name of an architecture, or has none of them.
abbrev pub IsNamed : Bytes → Option Target → Type 0
IsNamed key (some t) = (arch : Bytes) × (key ≡ arch ++ codes (suffix t))
IsNamed key none = (t : Target) (arch : Bytes) → key ≢ arch ++ codes (suffix t)

pub record Entry : Type 0 where
  pub key : Bytes
  pub target : Option Target
  pub vtype : ℕ
  pub value : Value

-- Where the heads are given by an array, its elements are integers.
abbrev pub AreInts : ℕ → Values → Type 0
AreInts t no_more = Unit
AreInts t (more v vs) = (is_some (int_of t v) ≡ true) × AreInts t vs

abbrev pub IsRegular : Option Target → Value → Type 0
IsRegular (some Target.head_count_kv) (array e vs) = AreInts e vs
IsRegular o v = Unit

pub record IsEntry (u : Bytes → Bool) (e : Entry) : Type 0 where
  pub named : IsNamed e.key e.target
  pub short : length e.key ≤ 1000000
  pub utf8 : u e.key ≡ true
  pub fits : Fits 4 e.vtype
  pub valued : IsValue u e.vtype e.value
  pub regular : IsRegular e.target e.value

unfoldable pub put_entry : Entry → Bytes → Bytes
unfolding put_value
put_entry e rest = put_le 8 (length e.key) (e.key ++ put_le 4 e.vtype (put_value e.value rest))

unfoldable pub put_entries : List Entry → Bytes → Bytes
unfolding put_entry
put_entries [] rest = rest
put_entries (e ∷ es) rest = put_entry e (put_entries es rest)

abbrev pub first_of : Option ℕ → Option ℕ → Option ℕ
first_of none d = d
first_of (some n) d = some n

abbrev pub kept_int : Target → Option ℕ → GgufMetadata → GgufMetadata
kept_int t none m = m
kept_int t (some n) m = set_field t n m

-- What an entry tells.
abbrev pub kept : Option Target → ℕ → Value → GgufMetadata → GgufMetadata
kept none t v m = m
kept (some Target.head_count_kv) t (array e vs) m = record m {
  head_count_kv = first_of (max_from none (ints_of e vs)) m.head_count_kv;
  head_count_kv_per_layer = some (ints_of e vs);
}
kept (some Target.sliding_window_pattern) t (array e vs) m =
    if eqb e 7 then record m { sliding_window_pattern = some (bools_of vs) } else m
kept (some Target.sliding_window_pattern) t v m = m
kept (some f) t v m = kept_int f (int_of t v) m

abbrev pub kept_of : List Entry → GgufMetadata → GgufMetadata
kept_of [] m = m
kept_of (e ∷ es) m = kept_of es (kept e.target e.vtype e.value m)

unfoldable pub put_file : ℕ → ℕ → List Entry → Bytes → Bytes
unfolding codes put_entries
put_file version tensors es rest =
    codes "GGUF" ++ put_le 4 version (put_le 8 tensors (put_le 8 (length es) (put_entries es rest)))
