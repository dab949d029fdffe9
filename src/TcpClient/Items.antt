-- ===== src/TcpClient/Items.antt =====
-- The items that the menus of src/clients/tcp_client.c and src/clients/udp_client.c offer, and the
-- stocks of the server.
use shelter_server.Prelude.{ℤ, ◌≡◌, some}
use shelter_server.Supplies.{FoodSupply, MedicineSupply}
use shelter_server.Server.{Server}
use shelter_server.TcpClient.Menu.{Input}
use shelter_server.TcpClient.Reading.{
  FoodItem, MedicineItem, food_input, medicine_input, raise_food, raise_medicine,
}

-- An item that the menus offer, the answers that ask for it, and the stocks when it is raised.
pub data Item : Type 0 where
  food_item : FoodItem → Item
  medicine_item : MedicineItem → Item

abbrev pub item_input : Item → ℤ → Input
item_input (food_item item) v = food_input item v
item_input (medicine_item item) v = medicine_input item v

abbrev pub item_food : Item → ℤ → FoodSupply → FoodSupply
item_food (food_item item) v f = raise_food item v f
item_food (medicine_item item) v f = f

abbrev pub item_medicine : Item → ℤ → MedicineSupply → MedicineSupply
item_medicine (food_item item) v m = m
item_medicine (medicine_item item) v m = raise_medicine item v m

-- The stocks are these.
abbrev pub HasStocks : FoodSupply → MedicineSupply → Server → Type 0
HasStocks f m s = (s.food ≡ some f) × (s.medicine ≡ some m)
