-- ===== src/Links.antt =====
-- libs/list.h: the circular doubly linked list whose links stand inside the objects it joins.
-- A list_entry is its address; `next` and `prev` are the two fields of every entry.
pub mod Chain
pub mod Ring
mod Tests
use os_edf.Prelude.{ℕ, Bool, ◌==◌, if◌then◌else◌}

pub record Links : Type 0 where
  pub next : ℕ → ℕ
  pub prev : ℕ → ℕ

-- `p->next = v` and `p->prev = v`
abbrev pub set_next : ℕ → ℕ → Links → Links
set_next p v l = record l { next = λ q. if p == q then v else l.next q }

abbrev pub set_prev : ℕ → ℕ → Links → Links
set_prev p v l = record l { prev = λ q. if p == q then v else l.prev q }

pub list_init : ℕ → Links → Links
list_init elm l = set_prev elm elm (set_next elm elm l)

-- __list_add
pub link_between : ℕ → ℕ → ℕ → Links → Links
link_between elm prev next l =
    set_prev elm prev (set_next elm next (set_next prev elm (set_prev next elm l)))

-- __list_del
pub unlink_between : ℕ → ℕ → Links → Links
unlink_between prev next l = set_prev next prev (set_next prev next l)

pub list_add_before : ℕ → ℕ → Links → Links
unfolding link_between
list_add_before listelm elm l = link_between elm (l.prev listelm) listelm l

pub list_add_after : ℕ → ℕ → Links → Links
unfolding link_between
list_add_after listelm elm l = link_between elm listelm (l.next listelm) l

pub list_add : ℕ → ℕ → Links → Links
list_add listelm elm l = list_add_after listelm elm l

pub list_del : ℕ → Links → Links
unfolding unlink_between
list_del listelm l = unlink_between (l.prev listelm) (l.next listelm) l

pub list_del_init : ℕ → Links → Links
unfolding list_init
list_del_init listelm l = list_init listelm (list_del listelm l)

unfoldable pub list_empty : ℕ → Links → Bool
list_empty list l = l.next list == list
