-- ===== src/Pth/Cache.antt =====
-- The path cache in pth_find_datagram_path: the paths of an entry are used in turn.
use mathlib.Core.List.{append-nil, append_assoc}
use mathlib.Core.Option.{some-injective}
use mpolsr_testbed.Common.{
  ℕ, zero, suc, ◌≡◌, refl, ap, ◌∙◌, sym, subst, Bool, ◌&&◌, Option, some, List, [], ◌∷◌, ◌++◌, map,
  ◌>>=◌, >>=-eq-some, ◌==◌, if◌then◌else◌, length, arith,
}
use mpolsr_testbed.Bytes.{SerHeader}
use mpolsr_testbed.Tc.{LocalLink, OlsrPath, PathBuffer, Topology}
use mpolsr_testbed.Tc.Local.{local_addr}
use mpolsr_testbed.Kdjk.{Config, Memory}
use mpolsr_testbed.Pth.{copy_new, copy_path, find_buffer, find_path, next_path, PathCopy, use_path}

-- The cache with another list of paths in the first entry of the two addresses.
unfoldable pub set_paths : ℕ → ℕ → List OlsrPath → List PathBuffer → List PathBuffer
set_paths src dst paths [] = []
set_paths src dst paths (b ∷ buffers) =
    if (b.src_addr_ip == src) && (b.dst_addr_ip == dst)
    then record b { lst_path = paths } ∷ buffers
    else b ∷ set_paths src dst paths buffers

find_buffer-set_paths :
    (src dst : ℕ) (paths : List OlsrPath) (bs : List PathBuffer) (b : PathBuffer)
    → find_buffer src dst bs ≡ some b
    → find_buffer src dst (set_paths src dst paths bs) ≡ some (record b { lst_path = paths })
unfolding find_buffer set_paths
find_buffer-set_paths src dst paths [] b h = absurd (cc)
find_buffer-set_paths src dst paths (c ∷ bs) b h =
    ground (arith, find_buffer-set_paths src dst paths bs b)

set_paths-set_paths :
    (src dst : ℕ) (ps qs : List OlsrPath) (bs : List PathBuffer)
    → set_paths src dst qs (set_paths src dst ps bs) ≡ set_paths src dst qs bs
unfolding set_paths
set_paths-set_paths src dst ps qs [] = refl
set_paths-set_paths src dst ps qs (c ∷ bs) = ground (arith, set_paths-set_paths src dst ps qs bs)

set_paths_same :
    (src dst : ℕ) (bs : List PathBuffer) (b : PathBuffer)
    → find_buffer src dst bs ≡ some b
    → set_paths src dst b.lst_path bs ≡ bs
unfolding find_buffer set_paths
set_paths_same src dst [] b h = refl
set_paths_same src dst (c ∷ bs) b h = ground (arith, set_paths_same src dst bs b)

use_path_lem :
    (src dst : ℕ) (bs : List PathBuffer) (b : PathBuffer)
    → find_buffer src dst bs ≡ some b
    → use_path src dst bs ≡ set_paths src dst (next_path b.lst_path) bs
unfolding find_buffer set_paths use_path
use_path_lem src dst [] b h = refl
use_path_lem src dst (c ∷ bs) b h = ground (arith, use_path_lem src dst bs b)

module _ (path_data : List ℕ) (pheader : SerHeader) where
  -- The copies of all paths of a list, if none is a fault.
  unfoldable pub copy_all : Bool → List LocalLink → List OlsrPath → Option (List PathCopy)
  copy_all src_local links [] = some []
  copy_all src_local links (path ∷ paths) =
      copy_path path path_data src_local pheader links >>= λ c.
      copy_all src_local links paths >>= λ cs. some (c ∷ cs)

  module _ (conf : Config) (mem : Memory) (src dst : ℕ) where
    -- So many datagrams for the same two nodes in a row, each with the same buffer and header.
    unfoldable pub serve : ℕ → Topology → Option (List (Option PathCopy) × Topology)
    serve zero s = some ([], s)
    serve (suc n) s = find_path conf mem path_data pheader src dst s >>= λ r.
        serve n r.1 >>= λ t. some (r.0 ∷ t.0, t.1)

    -- The topology with another list of paths in the entry.
    abbrev pub with_paths : Topology → List OlsrPath → Topology
    with_paths s paths = record s { path_buffer = set_paths src dst paths s.path_buffer }

    find_path-cached :
        (s : Topology) (b : PathBuffer) (p : OlsrPath) (ps : List OlsrPath) (c : PathCopy)
        → find_buffer src dst s.path_buffer ≡ some b
        → copy_path p path_data (src == local_addr s) pheader s.local_links ≡ some c
        → find_path conf mem path_data pheader src dst (with_paths s (p ∷ ps))
          ≡ some (some c, with_paths s (ps ++ (p ∷ [])))
    unfolding find_path copy_new next_path
    find_path-cached s b p ps c cached copied =
        let found = find_buffer-set_paths src dst (p ∷ ps) s.path_buffer b cached in
        rw
          (
            found,
            find_path,
            use_path_lem src dst (set_paths src dst (p ∷ ps) s.path_buffer) _ found,
            copied,
            set_paths-set_paths src dst (p ∷ ps) (ps ++ (p ∷ [])) s.path_buffer,
          )
          refl

    serve-paths :
        (s : Topology) (b : PathBuffer) (ps qs : List OlsrPath) (cs : List PathCopy)
        → find_buffer src dst s.path_buffer ≡ some b
        → copy_all (src == local_addr s) s.local_links ps ≡ some cs
        → serve (length ps) (with_paths s (ps ++ qs)) ≡ some (map some cs, with_paths s (qs ++ ps))
    unfolding serve copy_all
    serve-paths s b [] qs cs cached copied =
        ap (λ l. some ([], with_paths s l)) (sym (append-nil qs))
        ∙ ap (λ l. some (map some l, with_paths s (qs ++ []))) (some-injective [] cs copied)
    serve-paths s b (p ∷ ps) qs cs cached copied =
        let (c, one, more) =
          >>=-eq-some (copy_path p path_data (src == local_addr s) pheader s.local_links) _
            copied in
        let (ds, others, same) =
          >>=-eq-some (copy_all (src == local_addr s) s.local_links ps) _ more in
        let rest = serve-paths s b ps (qs ++ (p ∷ [])) ds cached others in
        rw
          (
            find_path-cached s b p (ps ++ qs) c cached one,
            append_assoc ps qs (p ∷ []),
            rest,
            append_assoc qs (p ∷ []) ps,
          )
          (ap (λ l. some (map some l, with_paths s (qs ++ (p ∷ ps))))
            (some-injective (c ∷ ds) cs same))

    -- If the cache has an entry of the two nodes, and none of the copies of its paths is a fault, then
    -- as many datagrams in a row as the entry has paths get the copies of its paths, each once and in their
    -- order, and the topology, the cache in it, is then as it was. A copy may be without a next hop.
    pub serve_round :
        (s : Topology) (b : PathBuffer) (cs : List PathCopy)
        → find_buffer src dst s.path_buffer ≡ some b
        → copy_all (src == local_addr s) s.local_links b.lst_path ≡ some cs
        → serve (length b.lst_path) s ≡ some (map some cs, s)
    serve_round s b cs cached copied =
        let e : with_paths s b.lst_path ≡ s =
          ap (λ l. record s { path_buffer = l }) (set_paths_same src dst s.path_buffer b cached) in
        let rounds = serve-paths s b b.lst_path [] cs cached copied in
        subst (λ t. serve (length b.lst_path) t ≡ some (map some cs, t)) e
          (rw (append-nil b.lst_path) at rounds)
