-- ===== src/Factory/Loaded/Braces.antt =====
-- The braces of a configuration that `load` accepts.
use vyatta_wanloadbalance.Common.{
  ℕ, ◌+◌, ◌≡◌, refl, ap, inl, inr, Bool, true, false, List, [], ◌∷◌, Option, none, some, Text, ℤ,
  pos, ◌+ℤ◌, eq_ℤ, eq_ℤ_iff, int_laws, pos_part, neg_part, arith, Holds, lit, is_empty, Bool-cases,
  if◌then◌else◌,
}
use vyatta_wanloadbalance.State.Lease.{fgets_lines}
use vyatta_wanloadbalance.StrProc.{str_proc}
use vyatta_wanloadbalance.Factory.{DataFactory}
use vyatta_wanloadbalance.Factory.Process.{process}
use vyatta_wanloadbalance.Factory.Load.{
  Place, Reader, before_hash, read_symbols, read_line, is_malformed, read_lines, start, load,
}
use vyatta_wanloadbalance.Factory.Loaded.Depth.{occurrences, occurrences_in, symbols-depth}

-- The tokens of a line.
abbrev tokens : Text → List Text
tokens text = str_proc (before_hash text) b' '

abbrev Counted : ℤ → List Text → ℤ → Type 0
Counted before ts after =
    after +ℤ pos (occurrences (lit "}") ts) ≡ before +ℤ pos (occurrences (lit "{") ts)

line-depth :
    (text : Text) (r : Reader)
    → Holds (λ (q : Reader). Counted r.depth (tokens text) q.depth) (read_line text r)
unfolding read_line
line-depth text r =
    go (read_symbols (before_hash text) (tokens text) begin)
      (symbols-depth (before_hash text) (tokens text) begin)
  where
    begin : Place
    begin = record { path = r.path; depth = r.depth; key = []; value = [] }

    Good : Reader → Type 0
    Good q = Counted r.depth (tokens text) q.depth

    given : Place → Option DataFactory → Option Reader
    given p o = elim o [
      | none ↦ none
      | some f ↦ some (record { path = p.path; depth = p.depth; factory = f })
    ]

    done :
        (p : Place) (o : Option DataFactory)
        → Counted r.depth (tokens text) p.depth
        → Holds Good (given p o)
    done p none k = tt
    done p (some f) k = k

    guard :
        (p : Place) (b : Bool) (o : Option DataFactory)
        → Counted r.depth (tokens text) p.depth
        → Holds Good (
            if b
            then some (record { path = p.path; depth = p.depth; factory = r.factory })
            else given p o)
    guard p true o k = k
    guard p false o k = done p o k

    go :
        (o : Option Place)
        → Holds (λ (p : Place). Counted r.depth (tokens text) p.depth) o
        → Holds Good (elim o [
          | none ↦ none
          | some p ↦
              if is_empty (tokens text)
              then some (record { path = p.path; depth = p.depth; factory = r.factory })
              else given p (process p.path p.depth p.key p.value r.factory)
        ])
    go none k = tt
    go (some p) k = guard p (is_empty (tokens text)) _ k

-- What is true of the braces on the lines that follow, if they are accepted.
abbrev Closed : ℤ → List Text → Bool × DataFactory → Type 0
Closed depth texts (ok, f) =
    (ok ≡ true)
    → depth +ℤ pos (occurrences_in (lit "{") texts) ≡ pos (occurrences_in (lit "}") texts)

-- The same with the line before them.
abbrev Remaining : ℤ → Text → List Text → Bool × DataFactory → Type 0
Remaining depth text texts (ok, f) =
    (ok ≡ true)
    → depth +ℤ pos (occurrences (lit "{") (tokens text) + occurrences_in (lit "{") texts)
      ≡ pos (occurrences (lit "}") (tokens text) + occurrences_in (lit "}") texts)

lines-Closed : (texts : List Text) (r : Reader) → Holds (Closed r.depth texts) (read_lines texts r)
unfolding read_lines occurrences_in
lines-Closed [] r = elim (Bool-cases (eq_ℤ r.depth (pos 0))) [
  | inl level ↦ rw level (λ e.
      let zero_depth = (eq_ℤ_iff r.depth (pos 0)).0 level in
      omega (int_laws, ap pos_part zero_depth, ap neg_part zero_depth))
  | inr uneven ↦ rw uneven (λ e. absurd (ground arith))
]
lines-Closed (text ∷ texts) r =
    elim (read_line text r)
        as (λ (o : Option Reader).
          Holds (λ (q : Reader). Counted r.depth (tokens text) q.depth) o
          → Holds (Remaining r.depth text texts)
              (elim o as (λ (p : Option Reader). Option (Bool × DataFactory)) [
                | none ↦ none
                | some r' ↦
                    if is_malformed r'.depth then some (false, r'.factory) else read_lines texts r'
              ])) [
                | none ↦ λ k. tt
                | some r' ↦ λ k.
                    elim (is_malformed r'.depth)
                      as (λ (b : Bool).
                        Holds (Remaining r.depth text texts)
                          (if b then some (false, r'.factory) else read_lines texts r')) [
                            | true ↦ λ e. absurd (ground arith)
                            | false ↦
                                elim (read_lines texts r')
                                    as (λ (o : Option (Bool × DataFactory)).
                                      Holds (Closed r'.depth texts) o
                                      → Holds (Remaining r.depth text texts) o) [
                                        | none ↦ λ j. tt
                                        | some end ↦ λ j e. add_up r.depth r'.depth _ _ _ _ k (j e)
                                      ]
                                  (lines-Closed texts r')
                          ]
              ]
      (line-depth text r)
  where
    add_up :
        (a b : ℤ) (m n k l : ℕ)
        → b +ℤ pos m ≡ a +ℤ pos n
        → b +ℤ pos l ≡ pos k
        → a +ℤ pos (n + l) ≡ pos (m + k)
    add_up a b m n k l e f =
        omega (int_laws, ap pos_part e, ap neg_part e, ap pos_part f, ap neg_part f)

-- A configuration that `load` accepts has as many opening as closing braces among the tokens of
-- its lines.
pub load_balanced :
    (content : Text) (f f' : DataFactory)
    → load (some content) f ≡ some (true, f')
    → occurrences_in (lit "{") (fgets_lines content)
      ≡ occurrences_in (lit "}") (fgets_lines content)
unfolding load start
load_balanced content f f' e =
    let closed = (rw e at (lines-Closed (fgets_lines content) (start f))) refl in
    omega (int_laws, ap pos_part closed, ap neg_part closed)
