-- ===== src/Cli/FactFile/Intersecting.antt =====
-- `cmd_intersect` of crates/blindoverlap-cli/src/main.rs, and its output as the input of a command.
use blind_overlap.Prelude.{
  ◌≤◌, ◌≡◌, sym, subst, Bool, false, Option, none, some, ok_or, List, [], ◌∷◌, arith, length, keep,
  All, ok, err, Result, ◌>>=◌,
}
use blind_overlap.Bytes.{Bytes, Text, bytes_order}
use blind_overlap.Crypto.{Crypto, Commutes, HexRoundTrips, PrintsDigits, HashesTo32}
use blind_overlap.OrdSet
use blind_overlap.FactSet.{FactId, FactSet, from_ids, compute_set_root}
use blind_overlap.FactSet.Laws.{IsValid, from_ids-IsValid}
use blind_overlap.Protocol.{IntersectionMode, PsiResult, intersect, max_set_size}
use blind_overlap.Protocol.Exactness.{overlap, TellsApart, intersect_exact}
use blind_overlap.Cli.Common.{
  CliError, io, Files, Effect, perform, write_file, read_to_string, write_out, read-write,
}
use blind_overlap.Cli.Lines.{unlines, lines}
use blind_overlap.Cli.FactFile.{
  load_fact_ids_from_reader, load_fact_ids, load_fact_set, result_lines, root_lines, cmd_intersect,
}
use blind_overlap.Cli.FactFile.Reading.{Are32, LoadsOnly32, load_lines-Are32}
use blind_overlap.Cli.FactFile.Written.{IsComment, load-result_lines, root_lines-IsComment}

All-keep : (p : Bytes → Bool) (xs : List Bytes) → Are32 xs → Are32 (keep p xs)
All-keep p [] h = tt
All-keep p (x ∷ xs) h = ground (arith, h, All-keep p xs h.1)

collect-Are32 : (xs : List Bytes) → Are32 xs → Are32 (OrdSet.collect xs)
unfolding OrdSet.collect OrdSet.insert
collect-Are32 [] h = tt
collect-Are32 (x ∷ xs) h = insert-Are32 x (OrdSet.collect xs) h.0 (collect-Are32 xs h.1)
  where
    insert-Are32 :
        (a : Bytes) (ys : List Bytes) → length a ≡ 32 → Are32 ys → Are32 (OrdSet.insert a ys)
    insert-Are32 a [] p q = (p, tt)
    insert-Are32 a (y ∷ ys) p q = ground (arith, p, q, insert-Are32 a ys p q.1)

module _ ⦃c : Crypto⦄ where
  length-root : HashesTo32 c → (xs : List FactId) → length (from_ids xs).root ≡ 32
  unfolding from_ids compute_set_root
  length-root hashes xs = hashes _

  from_ids-Are32 : (xs : List FactId) → Are32 xs → Are32 (from_ids xs).ids
  unfolding from_ids
  from_ids-Are32 xs h = collect-Are32 xs h

  load_fact_ids-Are32 : (files : Files) (path : Text) → LoadsOnly32 (load_fact_ids files path)
  unfolding load_fact_ids load_fact_ids_from_reader read_to_string
  load_fact_ids-Are32 files path = content_Are32 (files path)
    where
      content_Are32 :
          (content : Option Text)
          → LoadsOnly32 (ok_or content io >>= λ t. load_fact_ids_from_reader t)
      content_Are32 none = tt
      content_Are32 (some t) = load_lines-Are32 (lines t)

  -- A set that is loaded is made of identifiers of 32 bytes.
  load_fact_set-inversion :
      (files : Files) (path : Text) (s : FactSet)
      → load_fact_set files path ≡ ok s
      → (ids : List FactId) × (s ≡ from_ids ids) × Are32 ids
  unfolding load_fact_set
  load_fact_set-inversion files path s e =
      made_of (load_fact_ids files path) (load_fact_ids-Are32 files path) e
    where
      made_of :
          (r : Result CliError (List FactId))
          → LoadsOnly32 r
          → (r >>= λ ids. ok (from_ids ids)) ≡ ok s
          → (ids : List FactId) × (s ≡ from_ids ids) × Are32 ids
      made_of (ok ids) h e = (ids, ground (arith, e), h)
      made_of (err x) h e = absurd (ground (arith, e))

  pub load_fact_set-IsValid :
      (files : Files) (path : Text) (s : FactSet) → load_fact_set files path ≡ ok s → IsValid s
  load_fact_set-IsValid files path s e =
      let (ids, s_is, all32) = load_fact_set-inversion files path s e in
      subst IsValid (sym s_is) (from_ids-IsValid ids)

  pub load_fact_set-Are32 :
      (files : Files) (path : Text) (s : FactSet) → load_fact_set files path ≡ ok s → Are32 s.ids
  load_fact_set-Are32 files path s e =
      let (ids, s_is, all32) = load_fact_set-inversion files path s e in
      subst (λ (t : FactSet). Are32 t.ids) (sym s_is) (from_ids-Are32 ids all32)

  -- Two files of identifiers that can be loaded, within the size limit: `intersect` writes a file
  -- that loads as exactly the overlap of the two sets, in order, provided that Diffie-Hellman commutes, that
  -- the masks tell the identifiers apart, that hex text is decoded as what it encodes and is made of
  -- digits, and that a SHA-256 digest has 32 bytes.
  pub cmd_intersect-load :
      (secret_a secret_b : Bytes) (files : Files) (path_a path_b out : Text) (a b : FactSet)
      → Commutes c
      → HexRoundTrips c
      → PrintsDigits c
      → HashesTo32 c
      → load_fact_set files path_a ≡ ok a
      → load_fact_set files path_b ≡ ok b
      → length a.ids ≤ max_set_size
      → length b.ids ≤ max_set_size
      → TellsApart secret_b secret_a a.ids b.ids
      → (effects : List Effect) × (cmd_intersect secret_a secret_b files path_a path_b false
            (some out)
          ≡ ok effects)
        × (load_fact_ids (perform effects files) out ≡ ok (overlap a.ids b.ids))
  unfolding cmd_intersect load_fact_set load_fact_ids read_to_string write_out
  cmd_intersect-load sa sb files path_a path_b out a b comm reads digits hashes ea eb la lb apart =
      let ids = overlap a.ids b.ids in
      let (as', a_is, a32) = load_fact_set-inversion files path_a a ea in
      let (bs, b_is, b32) = load_fact_set-inversion files path_b b eb in
      let found : intersect sa sb a b IntersectionMode.intersection
          ≡ ok (PsiResult.intersection ids (from_ids ids).root) =
        intersect_exact sa sb a b IntersectionMode.intersection comm
          (load_fact_set-IsValid files path_a a ea) (load_fact_set-IsValid files path_b b eb) la lb
          apart in
      let content =
        unlines (result_lines (root_lines a b) (PsiResult.intersection ids (from_ids ids).root)) in
      let comments : All IsComment (root_lines a b) =
        subst (λ s. All IsComment (root_lines s b)) (sym a_is)
          (subst (λ s. All IsComment (root_lines (from_ids as') s)) (sym b_is)
            (root_lines-IsComment digits hashes as' bs)) in
      let read_back : load_fact_ids_from_reader content ≡ ok ids =
        load-result_lines reads digits (root_lines a b) ids (from_ids ids).root comments
          (length-root hashes ids) (All-keep _ a.ids (load_fact_set-Are32 files path_a a ea)) in
      (
        write_file out content ∷ [],
        ground (arith, ea, eb, found),
        ground (arith, read-write out content files, read_back),
      )
