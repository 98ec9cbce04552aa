-- ===== src/HttpContext/Headers.antt =====
-- The headers that a context collects from the parser, which hands over names and values in pieces.
use xmrig_nonces_heatmap.Prelude.{
  ℕ, ◌≡◌, ◌⊎◌, inl, inr, refl, sym, ap, ◌∙◌, subst, ℤ, Bool, true, false, Bytes, List, [], ◌∷◌,
  ◌++◌, map, arith, eq_bytes, Bool-cases, is_nil, if◌then◌else◌, append-nil, append_assoc,
}
use xmrig_nonces_heatmap.Dict
use xmrig_nonces_heatmap.Dict.{Dict}
use xmrig_nonces_heatmap.String
use xmrig_nonces_heatmap.HttpContext.{
  HttpContext, set_header, flush, on_header_field, on_header_value, on_headers_complete, Callback,
  header_field, header_value, handle, handle_all,
}

-- a header in the pieces that the parser hands over, one at least of the name and of the value
pub record Pieces : Type 0 where
  pub name : Bytes
  pub names : List Bytes
  pub value : Bytes
  pub values : List Bytes

abbrev pub joined : List Bytes → Bytes
joined [] = []
joined (s ∷ ss) = s ++ joined ss

abbrev pub whole_name : Pieces → Bytes
whole_name p = p.name ++ joined p.names

abbrev pub whole_value : Pieces → Bytes
whole_value p = p.value ++ joined p.values

-- the callbacks for one header, and for several
abbrev pub calls : Pieces → List Callback
calls p =
    header_field p.name
    ∷ (map header_field p.names ++ (header_value p.value ∷ map header_value p.values))

abbrev pub all_calls : List Pieces → List Callback
all_calls [] = []
all_calls (p ∷ ps) = calls p ++ all_calls ps

abbrev pub AreNamed : List Pieces → Type 0
AreNamed [] = Unit
AreNamed (p ∷ ps) = (is_nil (whole_name p) ≡ false) × AreNamed ps

-- the headers by their whole names and values; a name that is there keeps its value
abbrev pub insert_all : List Pieces → Dict Bytes Bytes → Dict Bytes Bytes
insert_all [] m = m
insert_all (p ∷ ps) m =
    insert_all ps (Dict.insert (map String.tolower (whole_name p)) (whole_value p) m)

-- the headers with the one that is pending
abbrev assembled : HttpContext → Dict Bytes Bytes
assembled c = (flush c).data'.headers

abbrev Between : HttpContext → Type 0
Between c = (c.m_was_header_value ≡ true) ⊎ (c.m_last_header_field ≡ [])

handle_all-append :
    (xs ys : List Callback) (c : HttpContext)
    → handle_all (xs ++ ys) c ≡ handle_all ys (handle_all xs c)
unfolding handle_all
handle_all-append [] ys c = refl
handle_all-append (x ∷ xs) ys c = handle_all-append xs ys (handle x c)

record Holds (c : HttpContext) (was : Bool) (field value : Bytes) (m : Dict Bytes Bytes)
    : Type 0 where
  was_value : c.m_was_header_value ≡ was
  last_field : c.m_last_header_field ≡ field
  last_value : c.m_last_header_value ≡ value
  headers : c.data'.headers ≡ m

first_field :
    (at : Bytes) (c : HttpContext)
    → Between c
    → (v : Bytes) × Holds (on_header_field at c) false at v (assembled c)
unfolding on_header_field
first_field at c b = elim (Bool-cases c.m_was_header_value) [
  | inl e ↦ (
    (flush c).m_last_header_value,
    simp e (record { was_value = refl; last_field = refl; last_value = refl; headers = refl }),
  )
  | inr e ↦
      let empty : c.m_last_header_field ≡ [] = ground (arith, b, e) in
      (
        c.m_last_header_value,
        simp e (record {
          was_value = refl;
          last_field = ap (λ (f : Bytes). f ++ at) empty;
          last_value = refl;
          headers = rw empty;
        }),
      )
]

more_fields :
    (ats : List Bytes) (c : HttpContext) (f v : Bytes) (m : Dict Bytes Bytes)
    → Holds c false f v m
    → Holds (handle_all (map header_field ats) c) false (f ++ joined ats) v m
unfolding handle_all handle on_header_field
more_fields [] c f v m h = rw (append-nil f) h
more_fields (at ∷ ats) c f v m h =
    subst (λ g. Holds (handle_all (map header_field (at ∷ ats)) c) false g v m)
      (append_assoc f at (joined ats))
      (more_fields ats (on_header_field at c) (f ++ at) v m (
        simp h.was_value (record {
          was_value = refl;
          last_field = rw h.last_field;
          last_value = h.last_value;
          headers = h.headers;
        })))

first_value :
    (at : Bytes) (c : HttpContext) (f v : Bytes) (m : Dict Bytes Bytes)
    → Holds c false f v m
    → Holds (on_header_value at c) true f at m
unfolding on_header_value
first_value at c f v m h =
    simp h.was_value (record {
      was_value = refl;
      last_field = h.last_field;
      last_value = refl;
      headers = h.headers;
    })

more_values :
    (ats : List Bytes) (c : HttpContext) (f v : Bytes) (m : Dict Bytes Bytes)
    → Holds c true f v m
    → Holds (handle_all (map header_value ats) c) true f (v ++ joined ats) m
unfolding handle_all handle on_header_value
more_values [] c f v m h = rw (append-nil v) h
more_values (at ∷ ats) c f v m h =
    subst (λ g. Holds (handle_all (map header_value (at ∷ ats)) c) true f g m)
      (append_assoc v at (joined ats))
      (more_values ats (on_header_value at c) f (v ++ at) m (
        simp h.was_value (record {
          was_value = refl;
          last_field = h.last_field;
          last_value = rw h.last_value;
          headers = h.headers;
        })))

-- one header in pieces becomes the pending one, and the one before it is stored
one_header :
    (p : Pieces) (c : HttpContext)
    → Between c
    → Holds (handle_all (calls p) c) true (whole_name p) (whole_value p) (assembled c)
unfolding handle_all handle
one_header p c b =
    let (v, first) = first_field p.name c b in
    let named = more_fields p.names (on_header_field p.name c) p.name v (assembled c) first in
    let valued = first_value p.value _ (whole_name p) v (assembled c) named in
    let all = more_values p.values _ (whole_name p) p.value (assembled c) valued in
    subst (λ x. Holds x true (whole_name p) (whole_value p) (assembled c))
      (sym (
        handle_all-append (map header_field p.names)
          (header_value p.value ∷ map header_value p.values) (on_header_field p.name c)))
      all

if_true : {A : Type 0} (b : Bool) (x y : A) → b ≡ true → (if b then x else y) ≡ x
if_true b x y e = rw e

if_false : {A : Type 0} (b : Bool) (x y : A) → b ≡ false → (if b then x else y) ≡ y
if_false b x y e = rw e

assembled-Holds :
    (c : HttpContext) (f v : Bytes) (m : Dict Bytes Bytes)
    → is_nil f ≡ false
    → Holds c true f v m
    → assembled c ≡ Dict.insert (map String.tolower f) v m
unfolding set_header
assembled-Holds c f v m named h =
    let e : is_nil c.m_last_header_field ≡ false = ap is_nil h.last_field ∙ named in
    let stored : assembled c
        ≡ Dict.insert (map String.tolower c.m_last_header_field) c.m_last_header_value
            c.data'.headers =
      ap (λ (d : HttpContext). d.data'.headers) (if_false _ c (set_header c) e) in
    stored
    ∙ ap (λ (g : Bytes). Dict.insert (map String.tolower g) c.m_last_header_value c.data'.headers)
        h.last_field
    ∙ ap (λ (w : Bytes). Dict.insert (map String.tolower f) w c.data'.headers) h.last_value
    ∙ ap (Dict.insert (map String.tolower f) v) h.headers

completed-headers :
    (c : HttpContext) (is_request : Bool) (status_code : ℤ) (method : ℕ)
    → (on_headers_complete is_request status_code method c).data'.headers ≡ assembled c
unfolding on_headers_complete set_header
completed-headers c is_request status_code method =
    elim (Bool-cases (is_nil c.m_last_header_field)) [
      | inl e ↦
          ap (λ (d : HttpContext). d.data'.headers) (if_true _ _ _ e)
          ∙ sym (ap (λ (d : HttpContext). d.data'.headers) (if_true _ c (set_header c) e))
      | inr e ↦
          ap (λ (d : HttpContext). d.data'.headers) (if_false _ _ _ e)
          ∙ sym (ap (λ (d : HttpContext). d.data'.headers) (if_false _ c (set_header c) e))
    ]

assembled_none : (c : HttpContext) → c.m_last_header_field ≡ [] → assembled c ≡ c.data'.headers
assembled_none c empty =
    let e : is_nil c.m_last_header_field ≡ true = ap is_nil empty in
    ap (λ (d : HttpContext). d.data'.headers) (if_true _ c (set_header c) e)

all_headers :
    (ps : List Pieces) (c : HttpContext)
    → AreNamed ps
    → Between c
    → assembled (handle_all (all_calls ps) c) ≡ insert_all ps (assembled c)
all_headers [] c named b = unfold handle_all in refl
all_headers (p ∷ ps) c (n, named) b =
    let h = one_header p c b in
    ap assembled (handle_all-append (calls p) (all_calls ps) c)
    ∙ all_headers ps (handle_all (calls p) c) named (inl h.was_value)
    ∙ ap (insert_all ps)
        (assembled-Holds (handle_all (calls p) c) (whole_name p) (whole_value p) (assembled c) n h)

-- When the parser has handed over all headers of a message, each with a name that is not empty, the
-- context has stored each under its whole name in lower case with its whole value, in whatever
-- pieces they came; of several with one name the first is kept.
pub headers-in_pieces :
    (ps : List Pieces) (c : HttpContext) (is_request : Bool) (status_code : ℤ) (method : ℕ)
    → AreNamed ps
    → c.m_was_header_value ≡ false
    → c.m_last_header_field ≡ []
    → (on_headers_complete is_request status_code method
        (handle_all (all_calls ps) c)).data'.headers
      ≡ insert_all ps c.data'.headers
headers-in_pieces ps c is_request status_code method named was empty =
    completed-headers (handle_all (all_calls ps) c) is_request status_code method
    ∙ all_headers ps c named (inr empty)
    ∙ ap (insert_all ps) (assembled_none c empty)
