-- ===== src/Plugin/Commands.antt =====
-- The commands of a removed entry: which links the module loses by them.
use mpolsr_testbed.Common.{
  ℕ, zero, suc, ◌==◌, ◌≡◌, ◌∙◌, refl, sym, ap, inl, inr, ==_iff, lt→ltb, Bool, true, false, not,
  ◌&&◌, Option, none, some, List, [], ◌∷◌, if◌then◌else◌, if_false, if_true, Bool-cases, ltb, subst,
  arith,
}
use mpolsr_testbed.Device.{cmd_remove_link}
use mpolsr_testbed.Plugin.{command, Dst, find_dst, Mid, rmv_all_links, rmv_links, rmv_mids_of}
use mpolsr_testbed.Plugin.Entries.{DstsOk, dst_active}
use mpolsr_testbed.Plugin.Links.{Graph, run_command, run_commands, run_commands-append, run_link}

-- Whether there is something that is not active.
abbrev pub idle : Option Bool → Bool
idle none = false
idle (some x) = not x

pub rmv_mids_of-same :
    (addr : ℕ) (mids : List Mid) (g : Graph) → run_commands (rmv_mids_of addr mids) g ≡ g
rmv_mids_of-same addr [] g = refl
rmv_mids_of-same addr (x ∷ mids) g = elim (Bool-cases (x.main_addr == addr)) [
  | inl eq ↦ rw eq (rmv_mids_of-same addr mids g)
  | inr ne ↦ rw ne (rmv_mids_of-same addr mids g)
]

-- The commands for links leave the nodes alone, and are proper.
pub record Apart (g h : Graph) : Type 0 where
  pub known : (a : ℕ) → h.known a ≡ g.known a
  pub proper : h.proper ≡ g.proper

rmv_links-Apart :
    (src : ℕ) (ds : List Dst) (g : Graph) → Apart g (run_commands (rmv_links src ds) g)
rmv_links-Apart src [] g = record { known = λ a. refl; proper = refl }
rmv_links-Apart src (d ∷ ds) g = elim (Bool-cases d.is_active) [
  | inl active ↦
      subst (λ ts. Apart g (run_commands ts g))
        (sym (
          if_true d.is_active (rmv_links src ds)
            (command cmd_remove_link src d.dst_addr 0 ∷ rmv_links src ds) active))
        (rmv_links-Apart src ds g)
  | inr goes ↦
      let rest =
        rmv_links-Apart src ds (run_command (command cmd_remove_link src d.dst_addr 0) g) in
      subst (λ ts. Apart g (run_commands ts g))
        (sym (
          if_false d.is_active (rmv_links src ds)
            (command cmd_remove_link src d.dst_addr 0 ∷ rmv_links src ds) goes))
        (record { known = rest.known; proper = rest.proper })
]

pub rmv_all_links-Apart :
    (n src : ℕ) (tab : ℕ → List Dst) (g : Graph)
    → Apart g (run_commands (rmv_all_links src n tab) g)
unfolding rmv_all_links
rmv_all_links-Apart zero src tab g = record { known = λ a. refl; proper = refl }
rmv_all_links-Apart (suc n) src tab g =
    let before = rmv_all_links-Apart n src tab g in
    let last = rmv_links-Apart src (tab n) (run_commands (rmv_all_links src n tab) g) in
    let both = run_commands-append (rmv_all_links src n tab) (rmv_links src (tab n)) g in
    record {
      known = λ a. ap (λ h. h.known a) both ∙ (last.known a ∙ before.known a);
      proper = ap (λ h. h.proper) both ∙ (last.proper ∙ before.proper);
    }

module _ (hash : ℕ → ℕ) where
  find_dst-none :
      (i v : ℕ) (ds : List Dst) → DstsOk hash i ds → (hash v == i) ≡ false → find_dst v ds ≡ none
  unfolding find_dst
  find_dst-none i v [] ok other = refl
  find_dst-none i v (d ∷ ds) ok other = elim (Bool-cases (d.dst_addr == v)) [
    | inl eq ↦ absurd (ground (arith, ok.0, ap hash ((==_iff d.dst_addr v).0 eq), other))
    | inr ne ↦ rw ne (find_dst-none i v ds ok.2 other)
  ]

  found-none :
      (d : Dst) (ds : List Dst) (v : ℕ)
      → find_dst d.dst_addr ds ≡ none
      → d.dst_addr ≡ v
      → find_dst v ds ≡ none
  found-none d ds v new same = subst (λ a. find_dst a ds ≡ none) same new

  -- One command for a destination that is not active.
  removes :
      (src : ℕ) (d : Dst) (ds : List Dst) (g : Graph) (u v : ℕ)
      → find_dst d.dst_addr ds ≡ none
      → d.is_active ≡ false
      → run_link (command cmd_remove_link src d.dst_addr 0) g u v
          && not (src == u && idle (dst_active hash (find_dst v ds)))
        ≡ g.links u v && not (src == u && idle (dst_active hash (find_dst v (d ∷ ds))))
  unfolding find_dst
  removes src d ds g u v new goes = elim (Bool-cases (d.dst_addr == v)) [
    | inl eq ↦
        rw (eq, found-none d ds v new ((==_iff d.dst_addr v).0 eq), goes)
          (by_src (src == u) (g.links u v))
    | inr ne ↦ rw ne (by_dst (src == u) (g.links u v) (idle (dst_active hash (find_dst v ds))))
  ]
    where
      by_src :
          (is x : Bool)
          → (if is && true then false else x) && not (is && false) ≡ x && not (is && true)
      by_src is x = ground arith

      by_dst :
          (is x i : Bool) → (if is && false then false else x) && not (is && i) ≡ x && not (is && i)
      by_dst is x i = ground arith

  stays :
      (src : ℕ) (d : Dst) (ds : List Dst) (u v : ℕ)
      → find_dst d.dst_addr ds ≡ none
      → d.is_active ≡ true
      → idle (dst_active hash (find_dst v ds)) ≡ idle (dst_active hash (find_dst v (d ∷ ds)))
  unfolding find_dst
  stays src d ds u v new active = elim (Bool-cases (d.dst_addr == v)) [
    | inl eq ↦ rw (eq, found-none d ds v new ((==_iff d.dst_addr v).0 eq), active) refl
    | inr ne ↦ rw ne refl
  ]

  rmv_links-links :
      (i src : ℕ) (ds : List Dst) (g : Graph) (u v : ℕ)
      → DstsOk hash i ds
      → (run_commands (rmv_links src ds) g).links u v
        ≡ g.links u v && not (src == u && idle (dst_active hash (find_dst v ds)))
  unfolding find_dst
  rmv_links-links i src [] g u v ok = ground arith
  rmv_links-links i src (d ∷ ds) g u v ok = elim (Bool-cases d.is_active) [
    | inl active ↦
        ap (λ ts. (run_commands ts g).links u v) (if_true d.is_active (rmv_links src ds) _ active)
        ∙ (rmv_links-links i src ds g u v ok.2
            ∙ ap (λ x. g.links u v && not (src == u && x)) (stays src d ds u v ok.1 active))
    | inr goes ↦
        ap (λ ts. (run_commands ts g).links u v) (if_false d.is_active (rmv_links src ds) _ goes)
        ∙ (rmv_links-links i src ds _ u v ok.2 ∙ removes src d ds g u v ok.1 goes)
  ]

  pub rmv_all_links-links :
      (n src : ℕ) (tab : ℕ → List Dst) (g : Graph) (u v : ℕ)
      → ((i : ℕ) → DstsOk hash i (tab i))
      → (run_commands (rmv_all_links src n tab) g).links u v
        ≡ g.links u v
          && not
              (src == u && (ltb (hash v) n && idle (dst_active hash (find_dst v (tab (hash v))))))
  unfolding rmv_all_links
  rmv_all_links-links zero src tab g u v ok = ground arith
  rmv_all_links-links (suc n) src tab g u v ok =
      ap (λ h. h.links u v)
        (run_commands-append (rmv_all_links src n tab) (rmv_links src (tab n)) g)
      ∙ (rmv_links-links n src (tab n) (run_commands (rmv_all_links src n tab) g) u v (ok n)
          ∙ (ap (λ x. x && not (src == u && idle (dst_active hash (find_dst v (tab n)))))
                (rmv_all_links-links n src tab g u v ok)
              ∙ elim (Bool-cases (hash v == n)) [
                | inl eq ↦
                    let same : hash v ≡ n = (==_iff (hash v) n).0 eq in
                    last (g.links u v) (src == u) (ltb (hash v) n) (ltb (hash v) (suc n)) _ _
                      (ground (arith, same)) (lt→ltb (hash v) (suc n) (omega (arith, same)))
                      (ap (λ i. idle (dst_active hash (find_dst v (tab i)))) (sym same))
                | inr ne ↦
                    other (g.links u v) (src == u) (ltb (hash v) n) (ltb (hash v) (suc n)) _ _
                      (ground (arith, ne))
                      (ap (λ o. idle (dst_active hash o)) (find_dst-none n v (tab n) (ok n) ne))
              ]))
    where
      last :
          (x is before now i j : Bool)
          → before ≡ false
          → now ≡ true
          → j ≡ i
          → (x && not (is && (before && i))) && not (is && j) ≡ x && not (is && (now && i))
      last x is before now i j b n e = ground arith

      other :
          (x is before now i j : Bool)
          → now ≡ before
          → j ≡ false
          → (x && not (is && (before && i))) && not (is && j) ≡ x && not (is && (now && i))
      other x is before now i j n e = ground arith
