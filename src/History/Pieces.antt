-- ===== src/History/Pieces.antt =====
-- What is appended to the text of the file of agent_framework/sandbox/code_history.py is loaded behind the
-- lines that are there.
use serac.Common.{
  ℕ, ◌≡◌, refl, sym, ap, ◌∙◌, Bool, true, List, [], ◌∷◌, ◌++◌, if◌then◌else◌, nat_beq, nat_beq_iff,
  map, map-append, append-nil, false, Bool-cases, inl, inr, arith, nat_key,
}
use serac.Common.Chars.{
  Text, is_empty, strip, rstrip, lstrip, split, split_first, split-append, Without,
}
use serac.History.{
  Json, line_of, lines_in, CodeEntry, Line, entry, garbled, CodeHistory, load_entry, load_lines,
}

-- Whether each line of a text, the last one too, has its "\n".
abbrev pub is_terminated : Text → Bool
is_terminated [] = true
is_terminated (c ∷ []) = nat_beq c 10
is_terminated (c ∷ d ∷ s) = is_terminated (d ∷ s)

-- What json.dumps makes of an entry is one line without blanks around it, and json.loads reads it back.
pub record Prints (j : Json) (e : CodeEntry) : Type 0 where
  pub one_line : Without 10 (j.dumps e)
  pub bare : strip (j.dumps e) ≡ j.dumps e
  pub filled : is_empty (j.dumps e) ≡ false
  pub back : j.loads (j.dumps e) ≡ entry e

pub is_terminated-append : (s : Text) → is_terminated (s ++ 10 ∷ []) ≡ true
is_terminated-append [] = ground arith
is_terminated-append (c ∷ []) = ground arith
is_terminated-append (c ∷ d ∷ s) = is_terminated-append (d ∷ s)

split-cons :
    (c : ℕ) (s piece : Text) (pieces : List Text)
    → nat_beq c 10 ≡ false
    → split 10 s ≡ piece ∷ pieces
    → split 10 (c ∷ s) ≡ (c ∷ piece) ∷ pieces
unfolding split split_first
split-cons c s piece pieces n e = ground (arith, n, e)

split-newline : (s : Text) → split 10 (10 ∷ s) ≡ [] ∷ split 10 s
split-newline s = split-append 10 [] s refl

-- What stands behind a terminated text is split for itself.
split-terminated :
    (c : ℕ) (s : Text)
    → is_terminated (c ∷ s) ≡ true
    → (piece : Text) × (pieces : List Text) × ((rest : Text)
        → split 10 ((c ∷ s) ++ rest) ≡ piece ∷ (pieces ++ split 10 rest))
split-terminated c [] t =
    ([], [], λ rest. ap (λ d. split 10 (d ∷ rest)) ((nat_beq_iff c 10).0 t) ∙ split-newline rest)
split-terminated c (d ∷ s) t =
    let (piece, pieces, f) = split-terminated d s t in
    elim (Bool-cases (nat_beq c 10)) [
      | inl e ↦ (
        [],
        piece ∷ pieces,
        λ rest.
            ap (λ x. split 10 (x ∷ d ∷ (s ++ rest))) ((nat_beq_iff c 10).0 e)
            ∙ split-newline (d ∷ (s ++ rest))
            ∙ ap (λ xs. [] ∷ xs) (f rest),
      )
      | inr e ↦ (c ∷ piece, pieces, λ rest. split-cons c _ piece _ e (f rest))
    ]

split-behind :
    (text : Text)
    → is_terminated text ≡ true
    → (pieces : List Text) × ((rest : Text) → split 10 (text ++ rest) ≡ pieces ++ split 10 rest)
split-behind [] t = ([], λ rest. refl)
split-behind (c ∷ s) t = let (piece, pieces, f) = split-terminated c s t in (piece ∷ pieces, f)

load_lines-append :
    (xs ys : List Line) (h : CodeHistory)
    → load_lines (xs ++ ys) h ≡ load_lines ys (load_lines xs h)
unfolding load_lines
load_lines-append [] ys h = refl
load_lines-append (garbled ∷ xs) ys h = load_lines-append xs ys h
load_lines-append (entry e ∷ xs) ys h = load_lines-append xs ys (load_entry e h)

load_line-garbled :
    (xs : List Line) (h : CodeHistory) → load_lines (xs ++ garbled ∷ []) h ≡ load_lines xs h
unfolding load_lines
load_line-garbled xs h = load_lines-append xs (garbled ∷ []) h

nothing_behind : (j : Json) → lines_in j [] ≡ garbled ∷ []
unfolding lines_in line_of split split_first strip rstrip lstrip
nothing_behind j = refl

lines_in-dumps :
    (j : Json) (e : CodeEntry)
    → Prints j e
    → lines_in j (j.dumps e ++ 10 ∷ []) ≡ entry e ∷ lines_in j []
unfolding lines_in line_of
lines_in-dumps j e p = rw (split-append 10 (j.dumps e) [] p.one_line) (
    ap
      (λ l.
        l
        ∷ map (λ line. if is_empty (strip line) then garbled else j.loads (strip line))
            (split 10 []))
      (rw (p.bare, p.filled) p.back))

-- An entry that is appended to a terminated text is loaded behind its lines.
pub load_lines-dumps :
    (j : Json) (e : CodeEntry) (text : Text) (h : CodeHistory)
    → is_terminated text ≡ true
    → Prints j e
    → load_lines (lines_in j (text ++ (j.dumps e ++ 10 ∷ []))) h
      ≡ load_entry e (load_lines (lines_in j text) h)
load_lines-dumps j e text h t p =
    let (pieces, f) = split-behind text t in
    ap (λ ls. load_lines ls h)
      (behind pieces (j.dumps e ++ 10 ∷ []) (f _)
        ∙ ap (λ ls. map (line_of j) pieces ++ ls)
            (lines_in-dumps j e p ∙ ap (λ ls. entry e ∷ ls) (nothing_behind j)))
    ∙ load_lines-append (map (line_of j) pieces) (entry e ∷ garbled ∷ []) h
    ∙ entry_last (load_lines (map (line_of j) pieces) h)
    ∙ ap (load_entry e) (
        sym (
          ap (λ s. load_lines (lines_in j s) h) (sym (append-nil text))
          ∙ ap (λ ls. load_lines ls h)
              (behind pieces [] (f []) ∙ ap (λ ls. map (line_of j) pieces ++ ls) (nothing_behind j))
          ∙ load_line-garbled (map (line_of j) pieces) h))
  where
    behind :
        (pieces : List Text) (rest : Text)
        → split 10 (text ++ rest) ≡ pieces ++ split 10 rest
        → lines_in j (text ++ rest) ≡ map (line_of j) pieces ++ lines_in j rest
    behind pieces rest e =
        unfold lines_in in (ap (map (line_of j)) e ∙ map-append (line_of j) pieces (split 10 rest))

    entry_last : (g : CodeHistory) → load_lines (entry e ∷ garbled ∷ []) g ≡ load_entry e g
    entry_last g = unfold load_lines in refl
