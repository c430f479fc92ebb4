-- ===== src/Ramfs/Lookup.antt =====
-- `ramfs_lookup` of kernel/fs/ramfs.c, after a change of the table.
use next_os.Prelude.{
  ℕ, ◌≡◌, refl, sym, ap, ◌∙◌, inl, inr, false, not, ◌==◌, none, List, [], ◌∷◌, length, get_or,
  Option-cases, arith,
}
use next_os.Ramfs.{ramfs_create}
use next_os.Ramfs.Strings.{error, done, split_path}
use next_os.Ramfs.Table.{NodeType, Ramfs, no_entry, find_entry}
use next_os.Ramfs.Files.{Node, is_file, node_of, lookup_found, lookup_at, split_again, ramfs_lookup}
use next_os.Ramfs.Valid.{IsValid}
use next_os.Ramfs.Create.{NotCreated, new_entry, ramfs_create-cases}

-- A look-up of a path whose name is not empty is a search for the entry.
lookup_named :
    (r : Ramfs) (path parent name : List ℕ)
    → split_path path ≡ done (parent, name)
    → (length name == 0) ≡ false
    → ramfs_lookup r path ≡ lookup_found r (find_entry r parent name)
unfolding ramfs_lookup split_again lookup_at
lookup_named r path parent name split named = rw (split, named, named) refl

-- The node of a new entry.
abbrev new_node : List ℕ → NodeType → ℕ → Node
new_node name type k = record {
  name = name;
  type = type;
  size = 0;
  fs_data = k;
  is_dir = not (is_file type);
}

not_zero : (xs : List ℕ) → ¬ (xs ≡ []) → (length xs == 0) ≡ false
not_zero [] h = absurd (h refl)
not_zero (x ∷ xs) h = ground arith

done_inj : {a b : Ramfs} → done a ≡ done b → a ≡ b
done_inj h = cc

not_done : {a : Ramfs} → ¬ (error ≡ done a)
not_done h = cc

absent_before :
    (r : Ramfs) (parent name : List ℕ)
    → ¬ NotCreated r parent name
    → find_entry r parent name ≡ none
absent_before r parent name possible = elim (Option-cases (find_entry r parent name)) [
  | inl absent ↦ absent
  | inr (k, found) ↦ absurd (possible (inr (inr (k, found))))
]

node_made :
    (s : Ramfs) (parent name : List ℕ) (type : NodeType) (k : ℕ)
    → get_or s.entries k no_entry ≡ new_entry parent name type
    → node_of s k ≡ new_node name type k
unfolding node_of
node_made s parent name type k made =
    ap
      (λ e. record {
        name = e.name;
        type = e.type;
        size = e.size;
        fs_data = k;
        is_dir = not (is_file e.type);
      })
      made

-- Where `ramfs_create` succeeds on a valid table, `ramfs_lookup` of the path failed before, and
-- afterwards gives the node of an empty entry with the name and the type.
pub ramfs_lookup-ramfs_create :
    (r r' : Ramfs) (path parent name : List ℕ) (type : NodeType)
    → IsValid r
    → split_path path ≡ done (parent, name)
    → ramfs_create r path type ≡ done r'
    → (ramfs_lookup r path ≡ error)
      × ((k : ℕ) × (ramfs_lookup r' path ≡ done (new_node name type k)))
unfolding lookup_found
ramfs_lookup-ramfs_create r r' path parent name type v split created =
    elim (ramfs_create-cases r path parent name type v split) [
      | inl (failed, why) ↦ absurd (not_done (sym failed ∙ created))
      | inr (s, made, c, possible) ↦
          let named = not_zero name (λ e. possible (inr (inl e))) in
          let absent = absent_before r parent name possible in
          let after : ramfs_lookup s path ≡ done (new_node name type c.slot) =
            lookup_named s path parent name split named
            ∙ ap (lookup_found s) c.found
            ∙ ap done (node_made s parent name type c.slot c.made) in
          (
            lookup_named r path parent name split named ∙ ap (lookup_found r) absent,
            (c.slot, ap (λ q. ramfs_lookup q path) (done_inj (sym created ∙ made)) ∙ after),
          )
    ]
