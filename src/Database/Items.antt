-- ===== src/Database/Items.antt =====
-- src/db/models.rs: the items in the table `items`.
use multithreaded.Base.{
  is_some, ℕ, ◌≡◌, Bool, true, false, Option, none, some, List, if◌then◌else◌, ltb,
}
use multithreaded.Base.Text.{Str, str_eq}

pub record Item : Type 0 where
  pub id : Str
  pub name : Str
  pub description : Str

pub record CreateItem : Type 0 where
  pub name : Str
  pub description : Str

-- The rows by their key `id`.
abbrev pub Rows : Type 0
Rows = Str → Option Item

abbrev pub put : Str → Option Item → Rows → Rows
put id row rows = λ key. if str_eq id key then row else rows key

-- The statements, executed by the database: each may fail, and then changes no row.
pub record ItemsTable : Type 1 where
  pub Table : Type 0
  pub rows : Table → Rows
  -- SELECT id, name, description FROM items ORDER BY created_at ASC, id ASC
  pub select_all : Table → Option (List Item) × Table
  -- SELECT id, name, description FROM items WHERE id = $1
  pub select : Str → Table → Option (Option Item) × Table
  -- INSERT INTO items (id, name, description) VALUES ($1, $2, $3)
  pub insert : Item → Table → Bool × Table
  -- DELETE FROM items WHERE id = $1, with the number of rows affected
  pub delete : Str → Table → Option ℕ × Table
  pub select_all_rows : (t : Table) → rows (select_all t).1 ≡ rows t
  pub select_ok :
      (id : Str) (t : Table) (o : Option Item) → (select id t).0 ≡ some o → o ≡ rows t id
  pub select_rows : (id : Str) (t : Table) → rows (select id t).1 ≡ rows t
  pub insert_ok :
      (item : Item) (t : Table)
      → (insert item t).0 ≡ true
      → rows (insert item t).1 ≡ put item.id (some item) (rows t)
  pub insert_error :
      (item : Item) (t : Table) → (insert item t).0 ≡ false → rows (insert item t).1 ≡ rows t
  pub delete_ok :
      (id : Str) (t : Table) (affected : ℕ)
      → (delete id t).0 ≡ some affected
      → (ltb 0 affected ≡ is_some (rows t id)) × (rows (delete id t).1 ≡ put id none (rows t))
  pub delete_error : (id : Str) (t : Table) → (delete id t).0 ≡ none → rows (delete id t).1 ≡ rows t

module _ (db : ItemsTable) where
  open db use {Table, select_all, select, insert, delete}

  unfoldable pub list_items : Table → Option (List Item) × Table
  list_items t = select_all t

  unfoldable pub get_item : Str → Table → Option (Option Item) × Table
  get_item id t = select id t

  -- `id` is the new UUID.
  unfoldable pub create_item : Str → Str → Str → Table → Option Item × Table
  create_item id name description t =
      let item : Item = record { id = id; name = name; description = description } in
      let (ok, t') = insert item t in if ok then (some item, t') else (none, t')

  -- Whether a row was removed.
  unfoldable pub delete_item : Str → Table → Option Bool × Table
  delete_item id t =
      let (result, t') = delete id t in
      (elim result [ none ↦ none | some affected ↦ some (ltb 0 affected) ], t')
