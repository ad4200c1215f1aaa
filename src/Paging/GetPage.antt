-- ===== src/Paging/GetPage.antt =====
-- get_page finds the pages that page_insert maps.
use os_edf.Paging.Tables.{Tables}
